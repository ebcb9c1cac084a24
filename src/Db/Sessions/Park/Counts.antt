-- ===== src/Db/Sessions/Park/Counts.antt =====
-- How the connections of the service pool are counted, and what taking one item out of a list leaves.
use frego_finance.Prelude.{
  ℕ, zero, suc, ◌+◌, ◌≡◌, refl, Bool, true, false, Option, none, some, List, [], ◌∷◌, arith, ltb,
  if◌then◌else◌, ◌==◌, nat_eq, All,
}
use frego_finance.Db.Sessions.Park.{Backend, Lease, Work, with_kept, take_at, take_lease}

abbrev pub one : ℕ → Backend → ℕ
one i c = if c.id == i then 1 else 0

abbrev pub one_held : ℕ → Option Backend → ℕ
one_held i none = 0
one_held i (some c) = one i c

abbrev pub total : {A : Type 0} → (A → ℕ) → List A → ℕ
total f [] = 0
total f (x ∷ xs) = f x + total f xs

-- How often the connection of a number is among those that are idle or closed, held by calls, or lent.
abbrev pub count : ℕ → List Backend → ℕ
count i cs = total (one i) cs

abbrev pub count_held : ℕ → List Work → ℕ
count_held i ws = total (λ (w : Work). one_held i w.held) ws

abbrev pub count_lent : ℕ → List Lease → ℕ
count_lent i ls = total (λ (l : Lease). one i l.backend) ls

-- A connection that was made is there once, and no other is there.
abbrev pub once_below : ℕ → ℕ → ℕ
once_below i n = if ltb i n then 1 else 0

pub once_below-suc : (i n : ℕ) → once_below i (suc n) ≡ once_below i n + (if n == i then 1 else 0)
once_below-suc i n = ground arith

module _ {A : Type 0} (f : A → ℕ) (P : A → Type 0) where
  -- What is left once an item was taken out: the total of the others, and what holds of all.
  abbrev pub IsTakenOut : List A → Option (A × List A) → Type 0
  IsTakenOut xs none = Unit {0}
  IsTakenOut xs (some (x, rest)) = (total f xs ≡ f x + total f rest) × (All P xs → P x × All P rest)

  with_kept-IsTakenOut :
      (x : A) (xs : List A) (o : Option (A × List A))
      → IsTakenOut xs o
      → IsTakenOut (x ∷ xs) (with_kept x o)
  with_kept-IsTakenOut x xs none h = tt
  with_kept-IsTakenOut x xs (some (y, rest)) (h, k) =
      (omega arith, λ (first, others). let (found, left) = k others in (found, (first, left)))

  pub take_at-IsTakenOut : (n : ℕ) (xs : List A) → IsTakenOut xs (take_at n xs)
  unfolding take_at
  take_at-IsTakenOut n [] = tt
  take_at-IsTakenOut zero (x ∷ xs) = (refl, λ h. h)
  take_at-IsTakenOut (suc n) (x ∷ xs) =
      with_kept-IsTakenOut x xs (take_at n xs) (take_at-IsTakenOut n xs)

module _ (f : Lease → ℕ) (P : Lease → Type 0) where
  chosen_lease :
      (b : Bool) (x : Lease) (ls : List Lease) (o : Option (Lease × List Lease))
      → IsTakenOut f P (x ∷ ls) o
      → IsTakenOut f P (x ∷ ls) (if b then some (x, ls) else o)
  chosen_lease true x ls o h = (refl, λ k. k)
  chosen_lease false x ls o h = h

  pub take_lease-IsTakenOut : (id : ℕ) (ls : List Lease) → IsTakenOut f P ls (take_lease id ls)
  unfolding take_lease
  take_lease-IsTakenOut id [] = tt
  take_lease-IsTakenOut id (x ∷ ls) =
      chosen_lease (x.backend.id == id) x ls _
        (with_kept-IsTakenOut f P x ls (take_lease id ls) (take_lease-IsTakenOut id ls))

-- ===== src/Strings/Replacing.antt =====
-- Lemmas on strings.ReplaceAll with an empty replacement.
use frego_finance.Prelude.{
  ℕ, zero, suc, ◌-◌, ◌≡◌, refl, ap, inl, inr, false, [], ◌∷◌, arith, Bool-cases, nat_eq, Text,
  text_eq, length, All,
}
use frego_finance.Strings.Defs.{replace_from, replace_all, starts_with}
use frego_finance.Strings.Splitting.{Lacks}

module _ {ℓ} (Q : ℕ → Type ℓ) (old : Text) where
  replace_from-All : (skip : ℕ) (s : Text) → All Q s → All Q (replace_from old [] skip s)
  unfolding replace_from
  replace_from-All skip [] h = tt
  replace_from-All (suc skip) (c ∷ s) (hc, hs) = replace_from-All skip s hs
  replace_from-All zero (c ∷ s) (hc, hs) = elim (Bool-cases (starts_with (c ∷ s) old)) [
    | inl e ↦ rw e (replace_from-All (length old - 1) s hs)
    | inr e ↦ rw e (hc, replace_from-All zero s hs)
  ]

  -- Deleting a text only drops code points.
  pub replace_all-All : (s : Text) → All Q s → All Q (replace_all s old [])
  unfolding replace_all
  replace_all-All s h = replace_from-All zero s h

-- Deleting one code point leaves none of it.
pub replace_all-Lacks : (s : Text) (d : ℕ) → Lacks d (replace_all s (d ∷ []) [])
unfolding replace_all replace_from starts_with
replace_all-Lacks [] d = tt
replace_all-Lacks (c ∷ s) d = ground (arith, replace_all-Lacks s d)

-- The text "..", which no file name may hold.
abbrev pub two_dots : Text
two_dots = b'.' ∷ b'.' ∷ []

-- No two full stops stand beside one another.
abbrev pub NoTwoDots : Text → Type 0
NoTwoDots [] = Unit
NoTwoDots (c ∷ s) = (starts_with (c ∷ s) two_dots ≡ false) × NoTwoDots s

module _ where
  pub replace_from-NoTwoDots : (skip : ℕ) (s : Text) → NoTwoDots (replace_from two_dots [] skip s)
  unfolding replace_from starts_with
  replace_from-NoTwoDots skip [] = tt
  replace_from-NoTwoDots (suc skip) (c ∷ s) = replace_from-NoTwoDots skip s
  replace_from-NoTwoDots zero (c ∷ []) = ground arith
  replace_from-NoTwoDots zero (c ∷ d ∷ s) =
      ground (arith, replace_from-NoTwoDots zero (d ∷ s), replace_from-NoTwoDots zero s)

-- Deleting ".." leaves no two full stops beside one another.
pub replace_all-NoTwoDots : (s : Text) → NoTwoDots (replace_all s two_dots [])
unfolding replace_all
replace_all-NoTwoDots s = replace_from-NoTwoDots zero s

-- Nothing is deleted where ".." does not occur.
pub replace_all_of_NoTwoDots : (s : Text) → NoTwoDots s → replace_all s two_dots [] ≡ s
unfolding replace_all replace_from
replace_all_of_NoTwoDots [] _ = refl
replace_all_of_NoTwoDots (c ∷ s) (h, k) = rw h (ap (λ t. c ∷ t) (replace_all_of_NoTwoDots s k))

-- ===== src/Strings/Trimming.antt =====
-- Lemmas on strings.TrimSpace and strings.Trim.
use frego_finance.Prelude.{
  ℕ, ◌≡◌, refl, ◌∙◌, ◌≢◌, ◌⊎◌, inl, inr, Bool, true, false, [], ◌∷◌, ◌++◌, arith, Bool-cases,
  nat_eq, Text, text_eq, All,
}
use frego_finance.Strings.Defs.{trim_left, trim_right, keep, trim_func, trim_space, is_space}

List-cases : (s : Text) → (s ≡ []) ⊎ ((c : ℕ) × (r : Text) × (s ≡ c ∷ r))
List-cases [] = inl refl
List-cases (c ∷ r) = inr (c, r, refl)

module _ (p : ℕ → Bool) where
  -- The first code point, if there is one, is not trimmed.
  abbrev pub Starts : Text → Type 0
  Starts [] = Unit
  Starts (c ∷ s) = p c ≡ false

  -- So is the last one.
  abbrev pub Ends : Text → Type 0
  Ends [] = Unit
  Ends (c ∷ []) = p c ≡ false
  Ends (c ∷ d ∷ s) = Ends (d ∷ s)

  pub trim_right-cons : (c : ℕ) (s : Text) → p c ≡ false → trim_right p (c ∷ s) ≡ c ∷ trim_right p s
  unfolding trim_right
  trim_right-cons c s h = elim (List-cases (trim_right p s)) [
    | inl e ↦ rw (e, h)
    | inr (d, r, e) ↦ rw (e, keep) refl
  ]

  trim_left-Starts : (s : Text) → Starts (trim_left p s)
  unfolding trim_left
  trim_left-Starts [] = tt
  trim_left-Starts (c ∷ s) = elim (Bool-cases (p c)) [
    | inl e ↦ rw e (trim_left-Starts s)
    | inr e ↦ rw e e
  ]

  trim_right-Starts : (s : Text) → Starts s → Starts (trim_right p s)
  unfolding trim_right
  trim_right-Starts [] h = tt
  trim_right-Starts (c ∷ s) h = rw (trim_right-cons c s h) h

  keep-Ends : (b : Bool) (c : ℕ) (s : Text) → p c ≡ b → Ends s → Ends (keep b c s)
  keep-Ends true c [] e h = tt
  keep-Ends false c [] e h = e
  keep-Ends true c (d ∷ s) e h = h
  keep-Ends false c (d ∷ s) e h = h

  trim_right-Ends : (s : Text) → Ends (trim_right p s)
  unfolding trim_right
  trim_right-Ends [] = tt
  trim_right-Ends (c ∷ s) = keep-Ends (p c) c (trim_right p s) refl (trim_right-Ends s)

  pub trim_left_of_Starts : (s : Text) → Starts s → trim_left p s ≡ s
  unfolding trim_left
  trim_left_of_Starts [] h = refl
  trim_left_of_Starts (c ∷ s) h = rw h

  pub trim_right_of_Ends : (s : Text) → Ends s → trim_right p s ≡ s
  unfolding trim_right
  trim_right_of_Ends [] h = refl
  trim_right_of_Ends (c ∷ []) h = rw h
  trim_right_of_Ends (c ∷ d ∷ s) h = rw (trim_right_of_Ends (d ∷ s) h) (ground arith)

  pub trim_func-Starts : (s : Text) → Starts (trim_func p s)
  unfolding trim_func
  trim_func-Starts s = trim_right-Starts (trim_left p s) (trim_left-Starts s)

  pub trim_func-Ends : (s : Text) → Ends (trim_func p s)
  unfolding trim_func
  trim_func-Ends s = trim_right-Ends (trim_left p s)

  pub trim_func_of_Ends : (s : Text) → Starts s → Ends s → trim_func p s ≡ s
  unfolding trim_func
  trim_func_of_Ends s h k = rw (trim_left_of_Starts s h) (trim_right_of_Ends s k)

  pub trim_func_idem : (s : Text) → trim_func p (trim_func p s) ≡ trim_func p s
  trim_func_idem s = trim_func_of_Ends (trim_func p s) (trim_func-Starts s) (trim_func-Ends s)

module _ (p : ℕ → Bool) where
  trim_right-concat : (s : Text) (c : ℕ) → p c ≡ true → trim_right p (s ++ c ∷ []) ≡ trim_right p s
  unfolding trim_right
  trim_right-concat [] c h = rw h
  trim_right-concat (d ∷ s) c h = rw (trim_right-concat s c h)

  -- A text that needs no trimming is what is left when one code point more is to be trimmed.
  pub trim_func-concat :
      (d : ℕ) (s : Text) (c : ℕ)
      → Starts p (d ∷ s)
      → Ends p (d ∷ s)
      → p c ≡ true
      → trim_func p ((d ∷ s) ++ c ∷ []) ≡ d ∷ s
  unfolding trim_func trim_left
  trim_func-concat d s c h k e =
      rw h (trim_right-concat (d ∷ s) c e ∙ trim_right_of_Ends p (d ∷ s) k)

module _ (p : ℕ → Bool) where
  pub Ends-append : (s t : Text) → t ≢ [] → Ends p t → Ends p (s ++ t)
  Ends-append [] t h k = k
  Ends-append (c ∷ []) [] h k = absurd (h refl)
  Ends-append (c ∷ []) (d ∷ t) h k = k
  Ends-append (c ∷ d ∷ s) t h k = Ends-append (d ∷ s) t h k

pub trim_space_idem : (s : Text) → trim_space (trim_space s) ≡ trim_space s
unfolding trim_space
trim_space_idem s = trim_func_idem is_space s

module _ {ℓ} (p : ℕ → Bool) (Q : ℕ → Type ℓ) where
  trim_left-All : (s : Text) → All Q s → All Q (trim_left p s)
  unfolding trim_left
  trim_left-All [] h = tt
  trim_left-All (c ∷ s) (hc, hs) = elim (Bool-cases (p c)) [
    | inl e ↦ rw e (trim_left-All s hs)
    | inr e ↦ rw e (hc, hs)
  ]

  keep-All : (b : Bool) (c : ℕ) (s : Text) → Q c → All Q s → All Q (keep b c s)
  keep-All true c [] hc hs = tt
  keep-All false c [] hc hs = (hc, tt)
  keep-All true c (d ∷ s) hc hs = (hc, hs)
  keep-All false c (d ∷ s) hc hs = (hc, hs)

  trim_right-All : (s : Text) → All Q s → All Q (trim_right p s)
  unfolding trim_right
  trim_right-All [] h = tt
  trim_right-All (c ∷ s) (hc, hs) = keep-All (p c) c (trim_right p s) hc (trim_right-All s hs)

  -- Trimming only drops code points.
  pub trim_func-All : (s : Text) → All Q s → All Q (trim_func p s)
  unfolding trim_func
  trim_func-All s h = trim_right-All (trim_left p s) (trim_left-All s h)

-- ===== src/Storage/Slug/Names.antt =====
-- Lemmas on trimming and full stops, and on the file name that is sanitised a second time.
use frego_finance.Prelude.{
  ℕ, ◌≡◌, refl, ◌≢◌, inl, inr, Bool, true, false, ◌||◌, [], ◌∷◌, arith, Bool-cases, ◌==◌, nat_eq,
  Text, text_beq, text_eq, codes,
}
use frego_finance.Strings.{
  trim_left, trim_right, keep, trim_func, trim_space, is_space, starts_with, replace_all,
}
use frego_finance.Strings.Trimming.{Ends, trim_func-All, trim_func-Ends, trim_right_of_Ends}
use frego_finance.Strings.Replacing.{NoTwoDots, two_dots, replace_all_of_NoTwoDots}
use frego_finance.Paths.{base, dot, slash, last_part, or_slash}
use frego_finance.Paths.Laws.{NoSlash, split_slash-NoSlash}
use frego_finance.Storage.Slug.{checked_name, sanitize_file_name}

module _ (p : ℕ → Bool) where
  trim_left-NoTwoDots : (s : Text) → NoTwoDots s → NoTwoDots (trim_left p s)
  unfolding trim_left
  trim_left-NoTwoDots [] h = tt
  trim_left-NoTwoDots (c ∷ s) h = elim (Bool-cases (p c)) [
    | inl e ↦ rw e (trim_left-NoTwoDots s h.1)
    | inr e ↦ rw e h
  ]

  -- What is kept of a text at its right end begins as the text does.
  keep-starts :
      (b : Bool) (c d : ℕ) (t r : Text)
      → starts_with (c ∷ d ∷ t) two_dots ≡ false
      → starts_with (c ∷ keep b d r) two_dots ≡ false
  unfolding starts_with
  keep-starts true c d t [] h = ground arith
  keep-starts false c d t [] h = h
  keep-starts true c d t (e ∷ r) h = h
  keep-starts false c d t (e ∷ r) h = h

  trim_right-starts :
      (c : ℕ) (s : Text)
      → starts_with (c ∷ s) two_dots ≡ false
      → starts_with (c ∷ trim_right p s) two_dots ≡ false
  unfolding trim_right
  trim_right-starts c [] h = h
  trim_right-starts c (d ∷ s) h = keep-starts (p d) c d s (trim_right p s) h

  keep-NoTwoDots :
      (b : Bool) (c : ℕ) (r : Text)
      → starts_with (c ∷ r) two_dots ≡ false
      → NoTwoDots r
      → NoTwoDots (keep b c r)
  keep-NoTwoDots true c [] h k = tt
  keep-NoTwoDots false c [] h k = (h, tt)
  keep-NoTwoDots true c (d ∷ r) h k = (h, k)
  keep-NoTwoDots false c (d ∷ r) h k = (h, k)

  trim_right-NoTwoDots : (s : Text) → NoTwoDots s → NoTwoDots (trim_right p s)
  unfolding trim_right
  trim_right-NoTwoDots [] h = tt
  trim_right-NoTwoDots (c ∷ s) (h, k) =
      keep-NoTwoDots (p c) c (trim_right p s) (trim_right-starts c s h) (trim_right-NoTwoDots s k)

  trim_func-NoTwoDots : (s : Text) → NoTwoDots s → NoTwoDots (trim_func p s)
  unfolding trim_func
  trim_func-NoTwoDots s h = trim_right-NoTwoDots (trim_left p s) (trim_left-NoTwoDots s h)

Ends-NoSlash : (s : Text) → NoSlash s → Ends (λ c. c == b'/') s
Ends-NoSlash [] _ = tt
Ends-NoSlash (c ∷ []) (h, _) = ground arith
Ends-NoSlash (c ∷ d ∷ s) (_, h) = Ends-NoSlash (d ∷ s) h

base-NoSlash : (c : ℕ) (s : Text) → NoSlash (c ∷ s) → base (c ∷ s) ≡ c ∷ s
unfolding base last_part or_slash
base-NoSlash c s h =
    rw
      (
        trim_right_of_Ends (λ d. d == b'/') (c ∷ s) (Ends-NoSlash (c ∷ s) h),
        split_slash-NoSlash (c ∷ s) h,
      )
      refl

checked_name-Ends : (s : Text) → Ends is_space s → Ends is_space (checked_name s)
unfolding checked_name
checked_name-Ends s h = elim (Bool-cases (s == dot || s == slash || s == [])) [
  | inl e ↦ rw e tt
  | inr e ↦ rw e h
]

base_dot : checked_name (replace_all (base []) (codes "..") []) ≡ []
unfolding checked_name replace_all base starts_with text_beq
base_dot = refl

resanitized :
    (s : Text)
    → NoSlash s
    → NoTwoDots s
    → Ends is_space s
    → Ends is_space (checked_name (replace_all (base s) (codes "..") []))
resanitized [] _ _ _ = rw base_dot tt
resanitized (c ∷ s) h k e =
    rw (base-NoSlash c s h, replace_all_of_NoTwoDots (c ∷ s) k) (checked_name-Ends (c ∷ s) e)

-- A safe name that is sanitised once more ends in no white space.
pub sanitize_file_name-Ends :
    (name : Text) → NoSlash name → NoTwoDots name → Ends is_space (sanitize_file_name name)
unfolding sanitize_file_name trim_space
sanitize_file_name-Ends name h k =
    resanitized (trim_func is_space name) (trim_func-All is_space (λ c. c ≢ b'/') name h)
      (trim_func-NoTwoDots is_space name k) (trim_func-Ends is_space name)

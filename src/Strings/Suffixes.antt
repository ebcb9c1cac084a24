-- ===== src/Strings/Suffixes.antt =====
-- Lemmas on strings.HasSuffix and strings.TrimSuffix.
use frego_finance.Prelude.{
  ℕ, ◌≡◌, refl, ◌≢◌, true, [], ◌∷◌, ◌++◌, arith, nat_eq, Text, text_beq, text_beq_refl, text_eq,
}
use frego_finance.Strings.Defs.{trim_suffix, has_suffix}

-- The text ends in what was appended to it.
pub has_suffix-append : (s t : Text) → has_suffix (s ++ t) t ≡ true
unfolding has_suffix text_beq
has_suffix-append [] [] = refl
has_suffix-append [] (d ∷ t) = ground (arith, text_beq_refl (d ∷ t))
has_suffix-append (c ∷ s) t = ground (arith, has_suffix-append s t)

pub trim_suffix-concat_ne :
    (s : Text) (c d : ℕ) → c ≢ d → trim_suffix (s ++ c ∷ []) (d ∷ []) ≡ s ++ c ∷ []
unfolding trim_suffix text_beq
trim_suffix-concat_ne [] c d h = ground arith
trim_suffix-concat_ne (x ∷ []) c d h = ground (arith, trim_suffix-concat_ne [] c d h)
trim_suffix-concat_ne (x ∷ y ∷ s) c d h = ground (arith, trim_suffix-concat_ne (y ∷ s) c d h)

pub trim_suffix-concat : (s : Text) (d : ℕ) → trim_suffix (s ++ d ∷ []) (d ∷ []) ≡ s
unfolding trim_suffix text_beq
trim_suffix-concat [] d = ground arith
trim_suffix-concat (x ∷ []) d = ground (arith, trim_suffix-concat [] d)
trim_suffix-concat (x ∷ y ∷ s) d = ground (arith, trim_suffix-concat (y ∷ s) d)

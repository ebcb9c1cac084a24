-- ===== src/Common/Convert/Laws.antt =====
-- What trim_string gives.
use frego_finance.Prelude.{
  ◌≡◌, sym, ap, ◌∙◌, ◌≢◌, none, some, [], arith, if◌then◌else◌, ◌==◌, nat_eq, Text, text_beq_iff,
  text_eq,
}
use frego_finance.Strings.{trim_space}
use frego_finance.Strings.Trimming.{trim_space_idem}
use frego_finance.Common.Convert.{trim_string}

non_empty_cases : (w t : Text) → (if w == [] then none else some w) ≡ some t → (t ≢ []) × (w ≡ t)
non_empty_cases w t h = ground (arith, text_beq_iff w [])

some_non_empty : (t : Text) → t ≢ [] → (if t == [] then none else some t) ≡ some t
some_non_empty t h = ground (arith, text_beq_iff t [])

-- A text that trim_string gives is not empty, and trimming it again changes nothing.
pub trim_string_fixed : (s t : Text) → trim_string s ≡ some t → (t ≢ []) × (trim_string t ≡ some t)
unfolding trim_string
trim_string_fixed s t h =
    let (some_rune, e) = non_empty_cases (trim_space s) t h in
    let trimmed : trim_space t ≡ t = ap trim_space (sym e) ∙ trim_space_idem s ∙ e in
    (some_rune, ap (λ w. if w == [] then none else some w) trimmed ∙ some_non_empty t some_rune)

-- ===== src/Common/Names.antt =====
-- The names and identifiers of internal/common/utils.go.
pub mod Laws
use frego_finance.Prelude.{
  ℕ, zero, suc, not, Option, none, some, List, [], ◌∷◌, ◌++◌, ltb, if◌then◌else◌, ◌==◌, nat_eq,
  Text, text_eq, codes, length,
}
use frego_finance.Strings.{Unicode, to_upper, replace_all}
use frego_finance.Common.Convert.{PgValue, text_value_ptr}

-- `v != nil && *v != ""`, or else the rest.
abbrev pub filled_or : Option Text → Text → Text
filled_or none rest = rest
filled_or (some v) rest = if not (v == []) then v else rest

unfoldable pub resolve_name : (display legal code : PgValue Text) → Text
unfolding text_value_ptr
resolve_name display legal code =
    filled_or (text_value_ptr display)
      (filled_or (text_value_ptr legal) (filled_or (text_value_ptr code) []))

unfoldable pub resolve_party_name : (display legal code : Option Text) → Text
resolve_party_name display legal code = filled_or display (filled_or legal (filled_or code []))

-- s[:n]
unfoldable pub take {ℓ} : {A : Type ℓ} → ℕ → List A → List A
take zero xs = []
take (suc n) [] = []
take (suc n) (x ∷ xs) = x ∷ take n xs

-- `fresh` is the text of a new UUID, which is ASCII, so that its bytes, which Go counts and cuts, are
-- its code points.
unfoldable pub generate_human_id : Unicode → (fresh : Text) → Text
unfolding to_upper replace_all take
generate_human_id u fresh =
    let raw = to_upper u (replace_all fresh (codes "-") []) in
    codes "H-" ++ (if ltb 10 (length raw) then take 10 raw else raw)

-- ===== src/Common/Names/Laws.antt =====
-- Which name is resolved.
use frego_finance.Prelude.{
  ◌≡◌, refl, ◌≢◌, ◌⊎◌, inl, inr, Option, none, some, List, [], ◌∷◌, nat_eq, Text, text_beq, text_eq,
}
use frego_finance.Common.Convert.{PgValue, text_ptr, text_value_ptr}
use frego_finance.Common.Names.{filled_or, resolve_name, resolve_party_name}

-- The first of the candidates that is there and not empty, the empty text if there is none.
abbrev pub IsFirstFilled : Text → List (Option Text) → Type 0
IsFirstFilled name [] = name ≡ []
IsFirstFilled name (none ∷ rest) = IsFirstFilled name rest
IsFirstFilled name (some v ∷ rest) = ((v ≢ []) × (name ≡ v)) ⊎ ((v ≡ []) × IsFirstFilled name rest)

filled_or-IsFirstFilled :
    (o : Option Text) (rest : Text) (os : List (Option Text))
    → IsFirstFilled rest os
    → IsFirstFilled (filled_or o rest) (o ∷ os)
unfolding text_beq
filled_or-IsFirstFilled none rest os h = h
filled_or-IsFirstFilled (some []) rest os h = inr (refl, h)
filled_or-IsFirstFilled (some (c ∷ v)) rest os h = inl ((λ e. cc), refl)

-- Both functions give the display name, or else the legal name, or else the code: the first that is
-- there and not empty. They agree when the pointers are those of the columns.
pub resolve_name-IsFirstFilled :
    (display legal code : PgValue Text)
    → IsFirstFilled
        (resolve_name display legal code)
        (text_ptr display ∷ text_ptr legal ∷ text_ptr code ∷ [])
      × (resolve_party_name (text_ptr display) (text_ptr legal) (text_ptr code)
          ≡ resolve_name display legal code)
unfolding resolve_name resolve_party_name text_ptr text_value_ptr
resolve_name-IsFirstFilled display legal code = (
  filled_or-IsFirstFilled (text_ptr display) _ _ (
      filled_or-IsFirstFilled (text_ptr legal) _ _
        (filled_or-IsFirstFilled (text_ptr code) [] [] refl)),
  refl,
)

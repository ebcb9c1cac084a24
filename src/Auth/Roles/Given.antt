-- ===== src/Auth/Roles/Given.antt =====
-- Where the roles of a token stand in its claims.
use frego_finance.Prelude.{
  ◌≡◌, ◌⊎◌, Option, none, some, List, [], ◌∷◌, nat_eq, Text, text_eq, codes,
}
use frego_finance.Context.Claims.{
  Value, null, boolean, number, text, texts, stringer, array, object, Items, nil, cons, Entries,
  lookup,
}
use frego_finance.Auth.Claims.{string_claim, to_string_slice}
use frego_finance.Auth.Roles.{roles_of, sections_roles}

abbrev pub AnyOf : {A : Type 0} → (A → Type 0) → List A → Type 0
AnyOf P [] = ⊥
AnyOf P (x ∷ xs) = P x ⊎ AnyOf P xs

-- An item of an array that reads as this role.
abbrev pub AnyItem : Text → Items → Type 0
AnyItem a nil = ⊥
AnyItem a (cons v vs) = (string_claim v ≡ some a) ⊎ AnyItem a vs

-- A value that gives this role: the text itself, one of a list of texts, or an item of an array.
abbrev pub IsGiven : Text → Value → Type 0
IsGiven a (text s) = s ≡ a
IsGiven a (stringer s) = s ≡ a
IsGiven a (texts ss) = AnyOf (λ s. s ≡ a) ss
IsGiven a (array xs) = AnyItem a xs
IsGiven a (object m) = ⊥
IsGiven a (number n) = ⊥
IsGiven a (boolean b) = ⊥
IsGiven a null = ⊥

-- A map whose entry "roles" gives this role.
abbrev pub HasRole : Text → Entries → Type 0
HasRole a m = (v : Value) × (lookup (codes "roles") m ≡ some v) × IsGiven a v

abbrev pub IsSection : Text → Value → Type 0
IsSection a (object m) = HasRole a m
IsSection a _ = ⊥

-- The map under "realm_access" gives the role.
abbrev pub InRealm : Text → Entries → Type 0
InRealm a claims =
    (m : Entries) × (lookup (codes "realm_access") claims ≡ some (object m)) × HasRole a m

-- A section of the map under "resource_access" gives the role.
abbrev pub InResource : (Entries → List Value) → Text → Entries → Type 0
InResource visit a claims =
    (m : Entries) × (lookup (codes "resource_access") claims ≡ some (object m))
    × AnyOf (IsSection a) (visit m)

abbrev pub slice_of : Option Value → List Text
slice_of o = elim o [ none ↦ [] | some v ↦ to_string_slice v ]

abbrev pub realm_of : Option Entries → List Text
realm_of o = elim o [ none ↦ [] | some m ↦ roles_of m ]

abbrev pub resources_of : (Entries → List Value) → Option Entries → List Text
resources_of visit o = elim o [ none ↦ [] | some m ↦ sections_roles (visit m) ]

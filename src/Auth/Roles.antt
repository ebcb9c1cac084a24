-- ===== src/Auth/Roles.antt =====
-- extractRoles and dedupe of internal/auth/authenticator.go.
pub mod Given
pub mod Sound
pub mod Complete
pub mod Laws
use frego_finance.Prelude.{
  none, some, List, [], ◌∷◌, ◌++◌, if◌then◌else◌, ◌==◌, nat_eq, Text, text_eq, codes, contains,
}
use frego_finance.Context.Claims.{Value, object, Entries, lookup}
use frego_finance.Auth.Claims.{nested_map, to_string_slice}

-- The roles under the key "roles" of a map, if there is one.
unfoldable pub roles_of : Entries → List Text
unfolding lookup to_string_slice
roles_of m = elim (lookup (codes "roles") m) [ none ↦ [] | some v ↦ to_string_slice v ]

abbrev pub section_roles : Value → List Text
section_roles (object m) = roles_of m
section_roles _ = []

unfoldable pub sections_roles : List Value → List Text
sections_roles [] = []
sections_roles (v ∷ vs) = section_roles v ++ sections_roles vs

-- The loop of dedupe; `seen` is the set of what the result holds.
unfoldable pub dedupe_from : List Text → List Text → List Text
unfolding contains
dedupe_from seen [] = []
dedupe_from seen (v ∷ vs) =
    let skipped = dedupe_from seen vs in
    let added = v ∷ dedupe_from (v ∷ seen) vs in
    if v == [] then skipped else if contains seen v then skipped else added

unfoldable pub dedupe : List Text → List Text
unfolding dedupe_from
dedupe vs = dedupe_from [] vs

-- `visit` is the order in which `range` goes through a map, which Go leaves open.
module _ (visit : Entries → List Value) where
  unfoldable pub gathered_roles : Entries → List Text
  unfolding nested_map roles_of sections_roles
  gathered_roles claims =
      elim (nested_map claims (codes "realm_access")) [ none ↦ [] | some m ↦ roles_of m ]
      ++ elim (nested_map claims (codes "resource_access")) [
        | none ↦ []
        | some m ↦ sections_roles (visit m)
      ]

  unfoldable pub extract_roles : Entries → List Text
  unfolding gathered_roles dedupe
  extract_roles claims = dedupe (gathered_roles claims)

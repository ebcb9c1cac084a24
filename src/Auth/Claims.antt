-- ===== src/Auth/Claims.antt =====
-- stringClaim, stringOrFallback, extractTenantClaim, nestedMap and toStringSlice of
-- internal/auth/authenticator.go, and the errors of the package.
use frego_finance.Prelude.{
  Bool, true, false, Option, none, some, List, [], ◌∷◌, ◌++◌, nat_eq, Text, text_eq, Result, ok,
  err,
}
use frego_finance.Context.Claims.{
  Value, null, boolean, number, text, texts, stringer, array, object, Items, nil, cons, Entries,
  lookup,
}

-- The errors that Authenticate returns; `%w` keeps the class, which errors.Is asks for.
pub data AuthError : Type 0 where
  verify_failed : Text → AuthError
  audience_mismatch : List Text → AuthError
  decode_failed : Text → AuthError
  claim_missing : Text → AuthError
  claim_malformed : Text → AuthError

-- errors.Is(err, ErrTenantMissing)
abbrev pub is_tenant_missing : AuthError → Bool
is_tenant_missing (claim_missing c) = true
is_tenant_missing (claim_malformed c) = true
is_tenant_missing _ = false

-- errors.Is(err, ErrAudienceMismatch)
abbrev pub is_audience_mismatch : AuthError → Bool
is_audience_mismatch (audience_mismatch auds) = true
is_audience_mismatch _ = false

-- A candidate of a list is taken if it is a string and not empty.
abbrev pub or_next : Option Text → Option Text → Option Text
or_next (some (c ∷ s)) next = some (c ∷ s)
or_next (some []) next = next
or_next none next = next

unfoldable mutual
  pub string_claim : Value → Option Text
  string_claim (text s) = some s
  string_claim (texts []) = none
  string_claim (texts (s ∷ ss)) = some s
  string_claim (stringer s) = some s
  string_claim (array xs) = first_claim xs
  string_claim (object m) = none
  string_claim (number n) = none
  string_claim (boolean b) = none
  string_claim null = none

  pub first_claim : Items → Option Text
  first_claim nil = none
  first_claim (cons v vs) = or_next (string_claim v) (first_claim vs)

-- stringClaim(claims[key]): a missing key reads as nil, which is no string.
unfoldable pub claim_at : Entries → Text → Option Text
unfolding lookup string_claim
claim_at claims key = elim (lookup key claims) [ none ↦ none | some v ↦ string_claim v ]

abbrev pub non_empty_or : Option Text → Text → Text
non_empty_or (some (c ∷ s)) fallback = c ∷ s
non_empty_or (some []) fallback = fallback
non_empty_or none fallback = fallback

unfoldable pub string_or_fallback : Entries → Text → Text → Text
unfolding claim_at
string_or_fallback claims key fallback = non_empty_or (claim_at claims key) fallback

abbrev pub tenant_or_malformed : Text → Option Text → Result AuthError Text
tenant_or_malformed claim (some (c ∷ s)) = ok (c ∷ s)
tenant_or_malformed claim (some []) = err (claim_malformed claim)
tenant_or_malformed claim none = err (claim_malformed claim)

unfoldable pub extract_tenant_claim : Entries → Text → Result AuthError Text
unfolding lookup string_claim
extract_tenant_claim claims claim = elim (lookup claim claims) [
  | none ↦ err (claim_missing claim)
  | some raw ↦ tenant_or_malformed claim (string_claim raw)
]

abbrev pub as_object : Option Value → Option Entries
as_object (some (object m)) = some m
as_object _ = none

unfoldable pub nested_map : Entries → Text → Option Entries
unfolding lookup
nested_map claims key = as_object (lookup key claims)

abbrev pub if_non_empty : Option Text → List Text
if_non_empty (some (c ∷ s)) = (c ∷ s) ∷ []
if_non_empty (some []) = []
if_non_empty none = []

unfoldable pub collect_items : Items → List Text
unfolding string_claim
collect_items nil = []
collect_items (cons v vs) = if_non_empty (string_claim v) ++ collect_items vs

unfoldable pub to_string_slice : Value → List Text
unfolding string_claim collect_items
to_string_slice (texts ss) = ss
to_string_slice (array xs) = collect_items xs
to_string_slice v = if_non_empty (string_claim v)

-- ===== src/Auth/Authenticator.antt =====
-- The Authenticator of internal/auth/authenticator.go.
pub mod Laws
pub mod Order
use frego_finance.Prelude.{
  Bool, false, not, ◌||◌, Option, none, some, List, [], ◌∷◌, if◌then◌else◌, ◌==◌, nat_eq, Text,
  text_eq, codes, contains, Result, ok, err, ◌>>=◌, wrap_err,
}
use frego_finance.Strings.{trim_space, fields}
use frego_finance.Context.{Principal}
use frego_finance.Context.Claims.{Value, Entries}
use frego_finance.Auth.Claims.{
  AuthError, verify_failed, audience_mismatch, decode_failed, claim_at, string_or_fallback,
  extract_tenant_claim,
}
use frego_finance.Auth.Roles.{extract_roles}

pub record Config : Type 0 where
  pub issuer : Text
  pub audiences : List Text
  pub tenant_claim : Text

-- A token that the OIDC library has verified. `claims` is what its method Claims decodes.
pub record IdToken : Type 0 where
  pub audience : List Text
  pub subject : Text
  pub claims : Result Text Entries

-- The verifier of the OIDC library: a raw token to a verified one or an error.
abbrev pub Verifier : Type 0
Verifier = Text → Result Text IdToken

pub record Authenticator : Type 0 where
  pub verifier : Verifier
  pub audiences : List Text
  pub tenant_claim : Text

unfoldable pub normalize_audiences : List Text → List Text
normalize_audiences [] = []
normalize_audiences (aud ∷ auds) =
    let trimmed = trim_space aud in
    let rest = normalize_audiences auds in if trimmed == [] then rest else trimmed ∷ rest

unfoldable pub aud_allowed : List Text → List Text → Bool
unfolding contains
aud_allowed token_aud [] = false
aud_allowed token_aud (allowed ∷ rest) = contains token_aud allowed || aud_allowed token_aud rest

pub data NewError : Type 0 where
  issuer_missing : NewError
  provider_failed : Text → NewError

-- `new_provider` is oidc.NewProvider followed by provider.Verifier.
unfoldable pub new_authenticator :
    (Text → Result Text Verifier) → Config → Result NewError Authenticator
unfolding normalize_audiences trim_space
new_authenticator new_provider cfg = if trim_space cfg.issuer == [] then err issuer_missing else do
  verifier ← wrap_err provider_failed (new_provider cfg.issuer)
  ok (record {
    verifier = verifier;
    audiences = normalize_audiences cfg.audiences;
    tenant_claim = if trim_space cfg.tenant_claim == [] then codes "tenantId" else cfg.tenant_claim;
  })

abbrev pub text_or_empty : Option Text → Text
text_or_empty none = []
text_or_empty (some s) = s

-- A slice that is nil is an empty one.
abbrev pub or_nil : List Text → List Text
or_nil [] = []
or_nil (part ∷ parts) = part ∷ parts

unfoldable pub scope_fields : Text → List Text
unfolding fields
scope_fields scope = or_nil (fields scope)

unfoldable pub scopes_of : Option Text → List Text
unfolding scope_fields
scopes_of none = []
scopes_of (some s) = scope_fields s

-- len(a.audiences) > 0 && !audAllowed(…)
abbrev pub refuses_audience : List Text → List Text → Bool
refuses_audience [] token_aud = false
refuses_audience (aud ∷ auds) token_aud = not (aud_allowed token_aud (aud ∷ auds))

module _ (visit : Entries → List Value) where
  unfoldable pub principal_of : Text → Entries → Text → Principal
  unfolding string_or_fallback claim_at extract_roles scopes_of
  principal_of subject claims tenant = record {
    username = string_or_fallback claims (codes "preferred_username") subject;
    subject = subject;
    email = text_or_empty (claim_at claims (codes "email"));
    tenant_id = tenant;
    roles = extract_roles visit claims;
    scopes = scopes_of (claim_at claims (codes "scope"));
    claims = claims;
  }

  unfoldable pub authenticate : Authenticator → Text → Result AuthError Principal
  unfolding aud_allowed extract_tenant_claim
  authenticate a raw = do
    token ← wrap_err verify_failed (a.verifier raw)
    if refuses_audience a.audiences token.audience
        then err (audience_mismatch token.audience)
        else do
          claims ← wrap_err decode_failed token.claims
          tenant ← extract_tenant_claim claims a.tenant_claim
          ok (principal_of token.subject claims tenant)

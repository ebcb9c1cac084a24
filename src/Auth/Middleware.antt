-- ===== src/Auth/Middleware.antt =====
-- internal/auth/middleware.go.
pub mod Laws
pub mod Bearer
use frego_finance.Prelude.{
  Bool, not, ◌&&◌, ◌||◌, List, [], ◌∷◌, if◌then◌else◌, ◌==◌, nat_eq, Text, text_eq, codes, Result,
  ok, err,
}
use frego_finance.Strings.{Unicode, equal_fold, trim_space, trim_suffix, has_suffix, split_n2}
use frego_finance.Context.Claims.{Value, Entries}
use frego_finance.Common.Principal.{with_principal}
use frego_finance.Context.{Principal}
use frego_finance.Http.{
  Request, Handler, Middleware, Served, header_get, http_error, served, with_line, warn,
  with_context,
}
use frego_finance.Auth.Claims.{AuthError, is_tenant_missing, is_audience_mismatch}
use frego_finance.Auth.Authenticator.{Authenticator, authenticate}

-- errMissingToken
pub data TokenError : Type 0 where
  missing_token : TokenError

module _ (u : Unicode) where
  -- The checks of bearerToken on the parts of the header.
  abbrev token_of : List Text → Result TokenError Text
  token_of (scheme ∷ rest ∷ []) =
      if not (equal_fold u scheme (codes "Bearer"))
      then err missing_token
      else if trim_space rest == []
      then err missing_token
      else ok (trim_space rest)
  token_of _ = err missing_token

  unfoldable pub bearer_token : Text → Result TokenError Text
  unfolding split_n2
  bearer_token header = if header == [] then err missing_token else token_of (split_n2 header b' ')

-- The requests that pass without a token.
unfoldable pub is_open : Request → Bool
unfolding trim_suffix has_suffix
is_open r =
    let path = trim_suffix r.path (codes "/") in
    r.method == codes "GET"
    && (has_suffix path (codes "/health")
        || has_suffix path (codes "/swagger")
        || has_suffix path (codes "/swagger.yaml"))

-- The response to an error of Authenticate.
unfoldable pub reject : AuthError → Served
reject e =
    if is_tenant_missing e
    then served (http_error (codes "tenant context missing in token") 403)
    else if is_audience_mismatch e
    then served (http_error (codes "token audience not accepted") 403)
    else with_line warn (codes "auth: token verification failed")
        (served (http_error (codes "invalid bearer token") 401))

module _ (u : Unicode) (visit : Entries → List Value) (a : Authenticator) where
  abbrev pass_on : Handler → Request → Result AuthError Principal → Served
  pass_on next r (err e) = reject e
  pass_on next r (ok p) = next (with_context r (with_principal r.context p))

  abbrev with_token : Handler → Request → Result TokenError Text → Served
  with_token next r (err e) = served (http_error (codes "missing bearer token") 401)
  with_token next r (ok raw) = pass_on next r (authenticate visit a raw)

  unfoldable pub middleware : Middleware
  unfolding is_open bearer_token header_get reject
  middleware next r =
      if is_open r
      then next r
      else with_token next r (bearer_token u (header_get r (codes "Authorization")))

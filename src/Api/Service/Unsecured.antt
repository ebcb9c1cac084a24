-- ===== src/Api/Service/Unsecured.antt =====
-- The operations without security in the API document, behind both middlewares.
use frego_finance.Prelude.{
  ◌≡◌, ◌⊎◌, inl, inr, true, false, List, [], Bool-cases, nat_eq, text_beq, text_eq, codes,
}
use frego_finance.Strings.{Unicode}
use frego_finance.Context.Claims.{Value, Entries}
use frego_finance.Http.{Request, Response, header_get}
use frego_finance.Auth.Authenticator.{Authenticator}
use frego_finance.Auth.Middleware.{middleware, is_open, bearer_token}
use frego_finance.Server.TenantMiddleware.{Registry, tenant_middleware}
use frego_finance.Server.TenantMiddleware.Laws.{RunsForTenant, IsBarred, tenant_middleware-mediates}
use frego_finance.Server.Router.{protected}
use frego_finance.Api.Strict.{StrictServerInterface}
use frego_finance.Api.Service.{Setup, Endpoint, served_by}

module _ (u : Unicode) (visit : Entries → List Value) (a : Authenticator) (reg : Registry)
    (s : Setup) (ssi : StrictServerInterface) (e : Endpoint) (r : Request) where
  -- The operation behind the authentication and the tenant middleware.
  abbrev pub behind : Response
  behind = (protected (middleware u visit a) (tenant_middleware reg) (served_by s ssi e) r).response

  -- No token is asked for, but a tenant is.
  abbrev pub IsOpen : Type 0
  IsOpen =
      (is_open r ≡ true)
      × (behind ≡ (tenant_middleware reg (served_by s ssi e) r).response)
      × (RunsForTenant reg r (served_by s ssi e) ⊎ IsBarred reg r)

  -- A token is asked for, and there is none.
  abbrev pub IsUnauthenticated : Type 0
  IsUnauthenticated = (is_open r ≡ false) × (behind.status ≡ 401)

-- The middlewares do not know which operations the document secures. A request without an
-- Authorization header, to any operation, is answered with 401 unless its path is one of the open
-- ones; and then it still has to name an active tenant, or there is an active default tenant, or it
-- is answered with 403 or 500.
pub served_by-unsecured :
    (u : Unicode) (visit : Entries → List Value) (a : Authenticator) (reg : Registry) (s : Setup)
    (ssi : StrictServerInterface) (e : Endpoint) (r : Request)
    → header_get r (codes "Authorization") ≡ []
    → IsOpen u visit a reg s ssi e r ⊎ IsUnauthenticated u visit a reg s ssi e r
unfolding protected middleware bearer_token text_beq
served_by-unsecured u visit a reg s ssi e r bare = elim (Bool-cases (is_open r)) [
  | inl passes ↦
      inl (passes, rw (passes, behind), tenant_middleware-mediates reg r (served_by s ssi e))
  | inr closed ↦ inr (closed, rw (closed, bare, behind))
]

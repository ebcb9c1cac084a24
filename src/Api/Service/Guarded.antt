-- ===== src/Api/Service/Guarded.antt =====
-- The API behind the authentication and the tenant middleware.
use frego_finance.Prelude.{
  ◌≡◌, ap, ◌∙◌, ◌⊎◌, inl, inr, true, false, List, [], Bool-cases, nat_eq, Text, text_eq, ok,
}
use frego_finance.Strings.{Unicode}
use frego_finance.Slog.{default_handler}
use frego_finance.Context.{Uuid, Context, Principal}
use frego_finance.Context.Claims.{Value, Entries}
use frego_finance.Common.Principal.{principal_from_context}
use frego_finance.Http
use frego_finance.Http.{Request, Response, http_error}
use frego_finance.Auth.Authenticator.{Authenticator}
use frego_finance.Auth.Middleware.{middleware, is_open}
use frego_finance.Auth.Middleware.Laws.{IsAuthenticated}
use frego_finance.Server.TenantMiddleware.{Registry, tenant_middleware, get_tenant_id}
use frego_finance.Server.Router.{protected}
use frego_finance.Server.Router.Laws.{IsServed, IsRefused, protected-mediates}
use frego_finance.Api.Service.{Setup, Endpoint, served_by, readable}
use frego_finance.Api.Service.Contexts.{reporting, served_by-context}
use frego_finance.Api.Service.Unread.{served_by-unreadable}

module _ (u : Unicode) (visit : Entries → List Value) (a : Authenticator) (reg : Registry)
    (s : Setup) (f : Context → Text) (e : Endpoint) (r : Request) where
  abbrev pub guarded : Response
  guarded =
      let chain = protected (middleware u visit a) (tenant_middleware reg) in
      (chain (served_by s (reporting f) e) r).response

  -- The implementation runs for the principal of an accepted token and an active tenant, and finds
  -- both in its context.
  pub record IsExecuted : Type 0 where
    pub principal : Principal
    pub tenant : Uuid
    pub authenticated : IsAuthenticated u visit a r principal
    pub active : reg.is_active tenant ≡ ok true
    pub seen : Request
    pub passed_on : seen ≡ Http.with_context r seen.context
    pub read : readable s e seen ≡ true
    pub ctx : Context
    pub told : guarded ≡ http_error (f ctx) 500
    pub principal_seen : principal_from_context ctx ≡ (principal, true)
    pub tenant_seen : get_tenant_id ctx ≡ ok tenant

  -- The request that the middlewares hand on, for such a principal and such a tenant, has parameters
  -- or a body that cannot be read.
  pub record IsUnreadable : Type 0 where
    pub principal : Principal
    pub tenant : Uuid
    pub authenticated : IsAuthenticated u visit a r principal
    pub active : reg.is_active tenant ≡ ok true
    pub seen : Request
    pub passed_on : seen ≡ Http.with_context r seen.context
    pub principal_seen : principal_from_context seen.context ≡ (principal, true)
    pub tenant_seen : get_tenant_id seen.context ≡ ok tenant
    pub unread : readable s e seen ≡ false
    pub refused : guarded.status ≡ 400

  executed_cases :
      IsServed u visit a reg r (served_by s (reporting f) e) → IsExecuted ⊎ IsUnreadable
  executed_cases i = elim (Bool-cases (readable s e i.seen)) [
    | inl read ↦
        let (ctx, told, p, t, _, _) =
          served_by-context s f (record { handler = default_handler [] }) e i.seen read in
        inl (record {
          principal = i.principal;
          tenant = i.tenant;
          authenticated = i.authenticated;
          active = i.active;
          seen = i.seen;
          passed_on = i.passed_on;
          read = read;
          ctx = ctx;
          told = i.answer ∙ told;
          principal_seen = p ∙ i.principal_seen;
          tenant_seen = t ∙ i.tenant_seen;
        })
    | inr unread ↦ inr (record {
      principal = i.principal;
      tenant = i.tenant;
      authenticated = i.authenticated;
      active = i.active;
      seen = i.seen;
      passed_on = i.passed_on;
      principal_seen = i.principal_seen;
      tenant_seen = i.tenant_seen;
      unread = unread;
      refused =
          ap (λ (x : Response). x.status) i.answer
          ∙ served_by-unreadable s (reporting f) e i.seen unread;
    })
  ]

  guarded_cases :
      IsServed u visit a reg r (served_by s (reporting f) e) ⊎ IsRefused u visit a reg r
      → IsExecuted ⊎ IsUnreadable ⊎ IsRefused u visit a reg r
  guarded_cases (inl i) = elim (executed_cases i) [
    | inl executed ↦ inl executed
    | inr bad ↦ inr (inl bad)
  ]
  guarded_cases (inr refused) = inr (inr refused)

-- A request that is not open to all, to an API whose operations all report what they find in their
-- context as an error, which is answered with 500: it is carried out by its operation only with an
-- accepted token, for an active tenant and if it can be read as it is passed on, with nothing but its
-- context changed, and the operation finds the token's principal and that tenant in its context; it is
-- answered with 400 only if it has such a token and tenant and its parameters or its body, as it is
-- passed on, cannot be read; otherwise it is answered with 401, 403 or 500 by the middlewares, whatever
-- the handler is.
pub guarded-mediates :
    (u : Unicode) (visit : Entries → List Value) (a : Authenticator) (reg : Registry) (s : Setup)
    (f : Context → Text) (e : Endpoint) (r : Request)
    → is_open r ≡ false
    → IsExecuted u visit a reg s f e r
      ⊎ IsUnreadable u visit a reg s f e r
      ⊎ IsRefused u visit a reg r
guarded-mediates u visit a reg s f e r closed =
    guarded_cases u visit a reg s f e r
      (protected-mediates u visit a reg r (served_by s (reporting f) e) closed)

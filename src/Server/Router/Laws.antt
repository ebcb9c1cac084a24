-- ===== src/Server/Router/Laws.antt =====
-- Who reaches the API handler through both middlewares.
use frego_finance.Prelude.{
  ◌≡◌, refl, ap, ◌∙◌, ◌⊎◌, inl, inr, true, false, List, nat_eq, text_eq, ok,
}
use frego_finance.Strings.{Unicode}
use frego_finance.Context.Claims.{Value, Entries}
use frego_finance.Context.{Uuid, Principal, same_key, value}
use frego_finance.Common.Principal.{with_principal, principal_from_context}
use frego_finance.Http.{Request, Response, Handler, with_context}
use frego_finance.Auth.Authenticator.{Authenticator}
use frego_finance.Auth.Middleware.{middleware, is_open}
use frego_finance.Auth.Middleware.Laws.{IsAuthenticated, IsTurnedAway, RunsFor, middleware-mediates}
use frego_finance.Server.TenantMiddleware.{
  Registry, choose_tenant, tenant_middleware, get_tenant_id,
}
use frego_finance.Server.TenantMiddleware.Laws.{
  RunsForTenant, IsBarred, for_tenant, tenant_middleware-mediates,
}
use frego_finance.Server.Router.{protected}

-- The request with the principal in its context.
abbrev pub for_principal : Request → Principal → Request
for_principal r p = with_context r (with_principal r.context p)

principal_from_context-for_tenant :
    (r : Request) (p : Principal) (tenant : Uuid)
    → principal_from_context (for_tenant (for_principal r p) tenant).context ≡ (p, true)
unfolding principal_from_context with_principal same_key value
principal_from_context-for_tenant r p tenant = refl

module _ (u : Unicode) (visit : Entries → List Value) (a : Authenticator) (reg : Registry)
    (r : Request) where
  -- The API handler answers, and it reads from its context the principal of the accepted token and
  -- a tenant that is active.
  pub record IsServed (api : Handler) : Type 0 where
    pub principal : Principal
    pub tenant : Uuid
    pub authenticated : IsAuthenticated u visit a r principal
    pub active : reg.is_active tenant ≡ ok true
    pub seen : Request
    pub passed_on : seen ≡ with_context r seen.context
    pub principal_seen : principal_from_context seen.context ≡ (principal, true)
    pub tenant_seen : get_tenant_id seen.context ≡ ok tenant
    pub answer :
        (protected (middleware u visit a) (tenant_middleware reg) api r).response
        ≡ (api seen).response

  -- The response is one of the middlewares' own, whatever the API handler is.
  abbrev pub IsRefused : Type 0
  IsRefused =
      (s : Response) × ((api : Handler)
        → (protected (middleware u visit a) (tenant_middleware reg) api r).response ≡ s)
      × ((s.status ≡ 401) ⊎ (s.status ≡ 403) ⊎ (s.status ≡ 500))

  barred_after :
      (p : Principal)
      → ((next : Handler) → middleware u visit a next r ≡ next (for_principal r p))
      → IsBarred reg (for_principal r p)
      → IsRefused
  unfolding protected
  barred_after p passed (s, e, status) =
      (s, (λ api. ap (λ x. x.response) (passed (tenant_middleware reg api)) ∙ e api), inr status)

  turned_away : IsTurnedAway u visit a r → IsRefused
  unfolding protected
  turned_away (s, e, inl status) =
      (s.response, (λ api. ap (λ x. x.response) (e (tenant_middleware reg api))), inl status)
  turned_away (s, e, inr status) =
      (s.response, (λ api. ap (λ x. x.response) (e (tenant_middleware reg api))), inr (inl status))

  chain_cases :
      (api : Handler) (p : Principal)
      → IsAuthenticated u visit a r p
      → ((next : Handler) → middleware u visit a next r ≡ next (for_principal r p))
      → RunsForTenant reg (for_principal r p) (api) ⊎ IsBarred reg (for_principal r p)
      → IsServed api ⊎ IsRefused
  unfolding protected
  chain_cases api p known passed (inl (active, seen, e)) = inl (record {
    principal = p;
    tenant = (choose_tenant reg (for_principal r p)).0;
    authenticated = known;
    active = active;
    seen = for_tenant (for_principal r p) (choose_tenant reg (for_principal r p)).0;
    passed_on = refl;
    principal_seen =
        principal_from_context-for_tenant r p (choose_tenant reg (for_principal r p)).0;
    tenant_seen = seen;
    answer = ap (λ x. x.response) (passed (tenant_middleware reg api)) ∙ e;
  })
  chain_cases api p known passed (inr barred) = inr (barred_after p passed barred)

  protected_cases :
      (api : Handler) → RunsFor u visit a r ⊎ IsTurnedAway u visit a r → IsServed api ⊎ IsRefused
  protected_cases api (inl (p, known, passed)) =
      chain_cases api p known passed (tenant_middleware-mediates reg (for_principal r p) api)
  protected_cases api (inr away) = inr (turned_away away)

-- A request that is not one of the open ones is answered by the API handler only if it carries an
-- accepted token and its tenant is active, and then the handler gets the request with nothing but its
-- context changed, and reads the token's principal and that tenant from there; otherwise the response is 401, 403 or 500 and does not depend on
-- the handler.
pub protected-mediates :
    (u : Unicode) (visit : Entries → List Value) (a : Authenticator) (reg : Registry) (r : Request)
    (api : Handler)
    → is_open r ≡ false
    → IsServed u visit a reg r api ⊎ IsRefused u visit a reg r
protected-mediates u visit a reg r api closed =
    protected_cases u visit a reg r api (middleware-mediates u visit a r closed)

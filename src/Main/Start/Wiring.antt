-- ===== src/Main/Start/Wiring.antt =====
-- How the parts that main makes work together once the service has started.
use frego_finance.Prelude.{
  ◌≡◌, refl, sym, ap, ◌≢◌, ◌↔◌, ◌⊎◌, inl, false, some, List, [], ◌∷◌, nat_eq, Text, text_beq,
  text_eq, codes, ok, wrap_err,
}
use mathlib.Core.Path.{subst}
use frego_finance.Prelude.{wrap_err-eq-ok}
use frego_finance.Context.{Uuid}
use frego_finance.Http.{Request, Handler}
use frego_finance.Auth.Authenticator.{new_authenticator}
use frego_finance.Auth.Middleware.{middleware, is_open}
use frego_finance.Db.Sessions
use frego_finance.Db.Sessions.{schema_column, new_tenant_session_manager}
use frego_finance.Db.Sessions.Laws.{
  HasSchema, IsColumnOf-schema_column, get_tenant_schema-eq-ok_iff,
}
use frego_finance.Tenants
use frego_finance.Main.{cors_origins}
use frego_finance.Server.TenantMiddleware.{tenant_middleware}
use frego_finance.Server.Router.{Route, get, mount, health, protected, build_router, routes}
use frego_finance.Server.Router.Laws.{IsServed, IsRefused, protected-mediates}
use frego_finance.Main.Start.{
  World, Service, auth_config, pool_for, start_up, finance_service_of, tenant_service_of,
  api_handler_of, tenant_router_of, registry_of, router_of,
}
use frego_finance.Main.Start.Laws.{start_up_sound}

some-injective : {A : Type 0} {a b : A} → some a ≡ some b → a ≡ b
some-injective h = cc

module _ {E S P : Type 0} (w : World E S P) (s : Service S P) where
  -- The two pools are those of the configuration's two database sections.
  abbrev pub HasPools : Type 0
  HasPools =
      (pool_for w s.config.tenant_database ≡ ok s.tenant_pool)
      × (pool_for w s.config.database ≡ ok s.finance_pool)

  -- The tenant middleware asks the tenant pool, and falls back to the configured tenant.
  abbrev pub HasRegistry : Type 0
  HasRegistry =
      ((tenant : Uuid) → (registry_of w s).is_active tenant ≡ w.active_in s.tenant_pool tenant)
      × ((registry_of w s).default_tenant ≡ s.config.security.default_tenant)

  -- The handler behind the authentication and the tenant middleware.
  abbrev pub guarded_api : Handler
  guarded_api =
      protected (middleware w.unicode w.visit s.authenticator) (tenant_middleware (registry_of w s))
        (api_handler_of w s)

  -- The routes that the process serves.
  abbrev pub served_routes : List Route
  served_routes =
      get (codes "/health") health
      ∷ mount (codes "/") (tenant_router_of w s)
      ∷ mount (codes "/finance/api/v1") guarded_api
      ∷ []

  abbrev pub HasRoutes : Type 0
  HasRoutes =
      router_of w s
      ≡ w.chi.serve
          (w.chi.request_id
            ∷ w.chi.real_ip
            ∷ w.chi.recoverer
            ∷ w.cors (cors_origins s.config.security.allowed_origins)
            ∷ [])
          served_routes

  -- What the registry's query for the column finance_schema has for a tenant.
  abbrev pub HasFinanceSchema : Uuid → Text → Type 0
  HasFinanceSchema tenant schema =
      ((w.sessions_on s.tenant_pool s.finance_pool).schema_of (codes "finance_schema") tenant
          (codes "finance")
        ≡ ok schema)
      × (schema ≢ [])

  abbrev manager : Sessions.TenantSessionManager
  manager = (finance_service_of w s).repo.sessions

  HasSchema-HasFinanceSchema :
      (tenant : Uuid) (schema : Text)
      → HasSchema manager tenant schema
      → HasFinanceSchema tenant schema
  unfolding finance_service_of schema_column text_beq
  HasSchema-HasFinanceSchema tenant schema (column, named, found, filled) =
      let is_column : codes "finance_schema" ≡ column =
        some-injective (IsColumnOf-schema_column (codes "finance") column named) in
      (
        subst
            (λ c.
              (w.sessions_on s.tenant_pool s.finance_pool).schema_of c tenant (codes "finance")
              ≡ ok schema)
            (sym is_column) found,
        filled,
      )

  HasFinanceSchema-HasSchema :
      (tenant : Uuid) (schema : Text)
      → HasFinanceSchema tenant schema
      → HasSchema manager tenant schema
  unfolding finance_service_of schema_column text_beq
  HasFinanceSchema-HasSchema tenant schema (found, filled) =
      (codes "finance_schema", inl (refl, refl), found, filled)

-- A service that has started serves three routes: the health check, the internal routes at "/", and
-- the API behind both middlewares. A request that is not one of the open ones is answered by the API
-- only if the authenticator made of the security section accepts its token and the pool made of
-- the tenant database's section reports its tenant as active, and the API reads both from its
-- context; otherwise the response is 401, 403 or 500, whatever the API is.
pub router_of-mediates :
    {E S P : Type 0}
    → (w : World E S P) (env : E) (s : Service S P) (r : Request) → start_up w env ≡ ok s
    → is_open r ≡ false
    → HasPools w s
      × (new_authenticator w.provider (auth_config s.config.security) ≡ ok s.authenticator)
      × HasRegistry w s
      × HasRoutes w s
      × (IsServed w.unicode w.visit s.authenticator (registry_of w s) r (api_handler_of w s)
          ⊎ IsRefused w.unicode w.visit s.authenticator (registry_of w s) r)
unfolding router_of build_router routes registry_of
router_of-mediates w env s r started closed =
    let m = start_up_sound w env s started in
    (
      (m.tenant_pool, m.finance_pool),
      m.authenticator,
      (λ tenant. refl, refl),
      refl,
      protected-mediates w.unicode w.visit s.authenticator (registry_of w s) r (api_handler_of w s)
          closed,
    )

-- The sessions of a service that has started give a tenant's schema exactly when the registry has one
-- for it in the column finance_schema that is not empty; the service is never an unknown one. The
-- tenant service asks the tenant database's pool and passes its answer on.
pub start_up-finance_schema :
    {E S P : Type 0}
    → (w : World E S P) (env : E) (s : Service S P) (tenant : Uuid) (schema : Text)
    → start_up w env ≡ ok s
    → HasPools w s
      × ((Sessions.get_tenant_schema (finance_service_of w s).repo.sessions tenant ≡ ok schema)
          ↔ HasFinanceSchema w s tenant schema)
      × ((Tenants.service_tenant_schema (tenant_service_of w s) tenant ≡ ok schema)
          ↔ (w.active_schema_on s.tenant_pool tenant ≡ ok schema))
unfolding tenant_service_of Tenants.service_tenant_schema
start_up-finance_schema w env s tenant schema started =
    let m = start_up_sound w env s started in
    let both = get_tenant_schema-eq-ok_iff (finance_service_of w s).repo.sessions tenant schema in
    (
      (m.tenant_pool, m.finance_pool),
      (
        λ h. HasSchema-HasFinanceSchema w s tenant schema (both.0 h),
        λ h. both.1 (HasFinanceSchema-HasSchema w s tenant schema h),
      ),
      (
        wrap_err-eq-ok Tenants.get_schema_failed (w.active_schema_on s.tenant_pool tenant),
        λ h. ap (wrap_err Tenants.get_schema_failed) h,
      ),
    )

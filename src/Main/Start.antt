-- ===== src/Main/Start.antt =====
-- How main of cmd/server/main.go starts, serves and ends.
pub mod Laws
pub mod Wiring
use frego_finance.Prelude.{
  ℕ, Bool, some, List, [], ◌∷◌, Text, codes, Result, ok, err, ◌>>=◌, wrap_err,
}
use frego_finance.Strings.{Unicode}
use frego_finance.Context.{Uuid}
use frego_finance.Context.Claims.{Value, Entries}
use frego_finance.Http.{Handler, Middleware}
use frego_finance.Config.{Config, ConfigError, EnvParser, DatabaseConfig, SecurityConfig, load}
use frego_finance.Auth.Authenticator
use frego_finance.Auth.Authenticator.{Authenticator, Verifier, NewError, new_authenticator}
use frego_finance.Auth.Middleware.{middleware}
use frego_finance.Db.Query.{QueryError}
use frego_finance.Db.Pool.{PgxPool, PoolError, Opened, new_pool}
use frego_finance.Storage.Types.{DocumentUploader, StorageError}
use frego_finance.Storage.S3.{Env, Client, LoadOptions}
use frego_finance.Server.TenantMiddleware.{Registry, tenant_middleware}
use frego_finance.Server.Router.{Chi, build_router}
use frego_finance.Server.Run.{Server, ServerError, new, shutdown}
use frego_finance.Api.Routes.{Route}
use frego_finance.Api.FinanceHandler.{new_finance_handler, finance_server}
use frego_finance.Api.TenantHandler.{new_tenant_handler, register_routes}
use frego_finance.Api.Service.{Setup, api_routes}
use frego_finance.Db.Sessions.{Pools, TenantSessionManager, new_tenant_session_manager}
use frego_finance.Finance
use frego_finance.Tenants
use frego_finance.Logging
use frego_finance.Main.{document_uploader, cors_origins}

-- What the process is given: the libraries, with `E` the environment, `S` the state of the object
-- store and `P` the pools. `mux` is a chi router with the routes, and `active_in` the query of the
-- tenant middleware on a pool; `sessions_on` and `active_schema_on` are those of the session manager
-- and of the tenant repository.
pub record World (E S P : Type 0) : Type 0 where
  pub parser : EnvParser E
  pub provider : Text → Result Text Verifier
  pub pgx : PgxPool P
  pub aws : LoadOptions → Result Text (Client S)
  pub unicode : Unicode
  pub visit : Entries → List Value
  pub storage_env : Env
  pub setup : Setup
  pub chi : Chi
  pub mux : List Route → Handler
  pub cors : (origins : List Text) → Middleware
  pub parse_uuid : Text → Result Text Uuid
  pub active_in : P → Uuid → Result QueryError Bool
  pub sessions_on : (tenant_pool service_pool : P) → Pools
  pub active_schema_on : P → Uuid → Result QueryError Text

-- A pool that was not given, and the pools that NewPool has closed again.
pub record Unopened (P : Type 0) : Type 0 where
  pub error : PoolError
  pub closed : List P

pub data StartError (P : Type 0) : Type 0 where
  config_failed : ConfigError → StartError P
  authenticator_failed : NewError → StartError P
  tenant_pool_failed finance_pool_failed : Unopened P → StartError P
  storage_failed : StorageError → StartError P

-- What main has made before it serves.
pub record Service (S P : Type 0) : Type 0 where
  pub config : Config
  pub authenticator : Authenticator
  pub tenant_pool : P
  pub finance_pool : P
  pub uploader : DocumentUploader S

-- How the process ends: its exit code, and the pools that it closed, in NewPool or by its deferred
-- calls, which os.Exit does not run.
pub record Ended (P : Type 0) : Type 0 where
  pub code : ℕ
  pub closed : List P

abbrev pub after_shutdown : {S P : Type 0} → Service S P → Result ServerError (Unit {0}) → Ended P
after_shutdown s (ok _) = record { code = 0; closed = s.finance_pool ∷ s.tenant_pool ∷ [] }
after_shutdown s (err e) = record { code = 1; closed = [] }

-- The pools that were closed when the process could not start.
abbrev pub closed_by : {P : Type 0} → StartError P → List P
closed_by (tenant_pool_failed u) = u.closed
closed_by (finance_pool_failed u) = u.closed
closed_by _ = []

unfoldable pub auth_config : SecurityConfig → Authenticator.Config
auth_config security = record {
  issuer = security.keycloak_issuer;
  audiences = security.keycloak_audience;
  tenant_claim = security.keycloak_tenant_claim;
}

module _ {E S P : Type 0} (w : World E S P) where
  abbrev pub opened : Opened P → Result (Unopened P) P
  opened o = wrap_err (λ e. record { error = e; closed = o.closed }) o.answer

  unfoldable pub pool_for : DatabaseConfig → Result (Unopened P) P
  unfolding new_pool
  pool_for d = opened (
      new_pool w.pgx d.url d.max_open_conns d.max_idle_conns d.conn_max_lifetime
        d.prefer_simple_proto)

  abbrev pub assembled :
      Config → Authenticator → P → P → DocumentUploader S → Result (StartError P) (Service S P)
  assembled cfg a tenant_pool finance_pool uploader = ok (record {
    config = cfg;
    authenticator = a;
    tenant_pool = tenant_pool;
    finance_pool = finance_pool;
    uploader = uploader;
  })

  abbrev pub with_finance_pool :
      Config → Authenticator → P → P → Result (StartError P) (Service S P)
  with_finance_pool cfg a tenant_pool finance_pool =
      wrap_err storage_failed (document_uploader w.unicode w.storage_env w.aws cfg.storage)
      >>= assembled cfg a tenant_pool finance_pool

  abbrev pub with_tenant_pool : Config → Authenticator → P → Result (StartError P) (Service S P)
  with_tenant_pool cfg a tenant_pool =
      wrap_err finance_pool_failed (pool_for cfg.database) >>= with_finance_pool cfg a tenant_pool

  abbrev pub with_authenticator : Config → Authenticator → Result (StartError P) (Service S P)
  with_authenticator cfg a =
      wrap_err tenant_pool_failed (pool_for cfg.tenant_database) >>= with_tenant_pool cfg a

  abbrev pub with_config : Config → Result (StartError P) (Service S P)
  with_config cfg =
      wrap_err authenticator_failed (new_authenticator w.provider (auth_config cfg.security))
      >>= with_authenticator cfg

  -- Each step ends the process with the code 1 if it fails.
  unfoldable pub start_up : E → Result (StartError P) (Service S P)
  unfolding load pool_for auth_config new_authenticator document_uploader
  start_up env = wrap_err config_failed (load w.parser env) >>= with_config

  -- What main makes of the parts without failing: the session manager, the two services.
  unfoldable pub sessions_of : Service S P → TenantSessionManager
  unfolding new_tenant_session_manager
  sessions_of s =
      new_tenant_session_manager (w.sessions_on s.tenant_pool s.finance_pool) (codes "finance")

  unfoldable pub finance_service_of : Service S P → Finance.Service S
  unfolding sessions_of Finance.new_with_sessions Finance.new_service
  finance_service_of s = Finance.new_service (Finance.new_with_sessions (sessions_of s)) s.uploader

  unfoldable pub tenant_service_of : Service S P → Tenants.Service
  unfolding Tenants.new_repository Tenants.new_service
  tenant_service_of s = Tenants.new_service (
      Tenants.new_repository w.active_schema_on s.tenant_pool s.finance_pool s.config.database.user)

  -- The logger is made of the environment.
  unfoldable pub setup_of : Service S P → Setup
  unfolding Logging.new
  setup_of s = record w.setup { logger = Logging.new w.unicode s.config.environment }

  unfoldable pub api_handler_of : Service S P → Handler
  unfolding api_routes finance_server new_finance_handler setup_of
  api_handler_of s =
      let handler = new_finance_handler s.config.storage.max_upload_size s.config.internal_secret in
      w.mux (api_routes (setup_of s) (finance_server handler))

  unfoldable pub tenant_router_of : Service S P → Handler
  unfolding new_tenant_handler register_routes
  tenant_router_of s =
      w.mux (register_routes w.setup.json (new_tenant_handler s.config.internal_secret) [])

  unfoldable pub registry_of : Service S P → Registry
  registry_of s = record {
    parse_uuid = w.parse_uuid;
    is_active = w.active_in s.tenant_pool;
    default_tenant = s.config.security.default_tenant;
  }

  unfoldable pub router_of : Service S P → Handler
  unfolding api_handler_of tenant_router_of registry_of cors_origins build_router middleware
      tenant_middleware
  router_of s =
      build_router w.chi (api_handler_of s) (some (tenant_router_of s))
        (w.cors (cors_origins s.config.security.allowed_origins))
        (middleware w.unicode w.visit s.authenticator) (tenant_middleware (registry_of s))

  unfoldable pub server_of : Service S P → Server
  unfolding router_of new
  server_of s = new s.config.http_address (router_of s) s.config.graceful_delay

  abbrev pub serve_until :
      (stop : ℕ → Result Text (Unit {0})) → Result (StartError P) (Service S P) → Ended P
  serve_until stop (err e) = record { code = 1; closed = closed_by e }
  serve_until stop (ok s) = after_shutdown s (shutdown stop (server_of s)).1

  -- `stop` is what the server's own Shutdown returns, once a signal has come.
  unfoldable pub main : (stop : ℕ → Result Text (Unit {0})) → E → Ended P
  unfolding start_up server_of shutdown
  main stop env = serve_until stop (start_up env)

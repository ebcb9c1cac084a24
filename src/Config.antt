-- ===== src/Config.antt =====
-- internal/config/config.go, over the parser of the env package. A duration is in nanoseconds.
pub mod Laws
use frego_finance.Prelude.{
  ℕ, Bool, not, List, [], if◌then◌else◌, ◌==◌, nat_eq, Text, text_eq, codes, Result, ok, err, ◌>>=◌,
  wrap_err,
}
use frego_finance.Context.{Uuid}

pub record DatabaseConfig : Type 0 where
  pub url : Text
  pub max_open_conns : ℕ
  pub max_idle_conns : ℕ
  pub conn_max_lifetime : ℕ
  pub prefer_simple_proto : Bool
  pub user : Text

pub record SecurityConfig : Type 0 where
  pub keycloak_issuer : Text
  pub keycloak_audience : List Text
  pub keycloak_tenant_claim : Text
  pub default_tenant : Uuid
  pub allowed_origins : List Text

pub record StorageConfig : Type 0 where
  pub bucket : Text
  pub region : Text
  pub endpoint : Text
  pub access_key_id : Text
  pub secret_access_key : Text
  pub use_path_style : Bool
  pub key_prefix : Text
  pub max_upload_size : ℕ

pub record Config : Type 0 where
  pub environment : Text
  pub http_address : Text
  pub graceful_delay : ℕ
  pub tenant_database : DatabaseConfig
  pub database : DatabaseConfig
  pub security : SecurityConfig
  pub storage : StorageConfig
  pub internal_secret : Text

-- What the process reads from outside: env.Parse for each struct, over the variables that are set,
-- and time.ParseDuration.
pub record EnvParser (E : Type 0) : Type 0 where
  pub parse_database : E → (prefix : Text) → Result Text DatabaseConfig
  pub parse_security : E → Result Text SecurityConfig
  pub parse_storage : E → Result Text StorageConfig
  pub parse_duration : Text → Result Text ℕ

pub data ConfigError : Type 0 where
  tenant_database_failed database_failed security_failed storage_failed : Text → ConfigError

-- getEnv looks nothing up.
unfoldable pub get_env : Text → Text
get_env key = []

unfoldable pub get_env_or_default : Text → Text → Text
unfolding get_env
get_env_or_default key default_value =
    let v = get_env key in if not (v == []) then v else default_value

abbrev pub delay_or : ℕ → Result Text ℕ → ℕ
delay_or before (ok d) = d
delay_or before (err e) = before

module _ {E : Type 0} (lib : EnvParser E) where
  -- The delay before the parse of GRACEFUL_DELAY is zero: no tag of Config itself is read.
  unfoldable pub graceful_delay : ℕ
  unfolding get_env_or_default
  graceful_delay =
      let text = get_env_or_default (codes "GRACEFUL_DELAY") (codes "5s") in
      if not (text == []) then delay_or 0 (lib.parse_duration text) else 0

  abbrev pub config_of : DatabaseConfig → DatabaseConfig → SecurityConfig → StorageConfig → Config
  config_of tenant_database database security storage = record {
    environment = get_env_or_default (codes "ENVIRONMENT") (codes "development");
    http_address = get_env_or_default (codes "HTTP_ADDRESS") (codes ":8080");
    graceful_delay = graceful_delay;
    tenant_database = tenant_database;
    database = database;
    security = security;
    storage = storage;
    internal_secret = [];
  }

  unfoldable pub load : E → Result ConfigError Config
  unfolding get_env_or_default graceful_delay
  load env = do
    tenant_database ← wrap_err tenant_database_failed (lib.parse_database env (codes "TENANT_DB_"))
    database ← wrap_err database_failed (lib.parse_database env (codes "DB_"))
    security ← wrap_err security_failed (lib.parse_security env)
    storage ← wrap_err storage_failed (lib.parse_storage env)
    ok (config_of tenant_database database security storage)

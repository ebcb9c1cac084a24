-- ===== src/Tests/Chain.antt =====
-- Examples for packages internal/server, internal/config, internal/logging and cmd/server.
use frego_finance.Prelude.{
  ◌≡◌, refl, ◌⊎◌, false, none, [], ◌∷◌, nat_eq, Text, text_beq, text_eq, codes, Result, ok, err,
}
use frego_finance.Context.Claims.{values}
use frego_finance.Common.Principal.{with_principal}
use frego_finance.Http.{with_context, header_get, values_of}
use frego_finance.Server.TenantMiddleware.{tenant_middleware}
use frego_finance.Server.TenantMiddleware.Laws.{
  for_tenant, RunsForTenant, IsBarred, tenant_middleware-mediates, tenant_middleware-header,
}
use frego_finance.Server.Router.Laws.{IsServed, IsRefused, protected-mediates}
use frego_finance.Config.{
  Config, EnvParser, DatabaseConfig, SecurityConfig, StorageConfig, load, get_env_or_default,
  get_env, graceful_delay,
}
use frego_finance.Config.Laws.{IsLoaded, load-IsLoaded}
use frego_finance.Storage.S3.{Client, Env, LoadOptions, no_such_key}
use frego_finance.Tests.Samples.{
  ascii, authenticator, registry, request, answer_ok, principal, closed,
}

protected-mediates_example :
    IsServed ascii values authenticator registry request answer_ok
    ⊎ IsRefused ascii values authenticator registry request
protected-mediates_example =
    protected-mediates ascii values authenticator registry request answer_ok closed

tenant_middleware-mediates_example :
    RunsForTenant registry request answer_ok ⊎ IsBarred registry request
tenant_middleware-mediates_example = tenant_middleware-mediates registry request answer_ok

header_t2 : header_get request (codes "X-Tenant-ID") ≡ codes "t2"
unfolding header_get values_of text_beq
header_t2 = refl

tenant_middleware-header_example :
    (tenant_middleware registry answer_ok
      (with_context request (with_principal request.context principal))).response
    ≡ (answer_ok (
        for_tenant
          (with_context request (with_principal request.context principal))
          (codes "t2"))).response
tenant_middleware-header_example =
    tenant_middleware-header registry request principal answer_ok (codes "t2") (codes "t2")
      header_t2 (λ e. cc) refl refl

abbrev pub database : DatabaseConfig
database = record {
  url = codes "postgres://db";
  max_open_conns = 25;
  max_idle_conns = 5;
  conn_max_lifetime = 300000000000;
  prefer_simple_proto = false;
  user = codes "erp_user";
}

abbrev pub security : SecurityConfig
security = record {
  keycloak_issuer = codes "https://issuer";
  keycloak_audience = codes "finance" ∷ [];
  keycloak_tenant_claim = codes "tenant_id";
  default_tenant = codes "t0";
  allowed_origins = [];
}

abbrev pub storage : StorageConfig
storage = record {
  bucket = codes "docs";
  region = codes "eu-west-1";
  endpoint = [];
  access_key_id = [];
  secret_access_key = [];
  use_path_style = false;
  key_prefix = codes "finance/";
  max_upload_size = 10485760;
}

abbrev pub parser : EnvParser Text
parser = record {
  parse_database = λ env prefix. ok database;
  parse_security = λ env. ok security;
  parse_storage = λ env. ok storage;
  parse_duration = λ s. ok 5000000000;
}

abbrev pub config : Config
config = record {
  environment = codes "development";
  http_address = codes ":8080";
  graceful_delay = 5000000000;
  tenant_database = database;
  database = database;
  security = security;
  storage = storage;
  internal_secret = [];
}

pub config_loaded : load parser (codes "ENVIRONMENT=production") ≡ ok config
unfolding load get_env_or_default get_env graceful_delay text_beq
config_loaded = refl

load-IsLoaded_example : IsLoaded parser (codes "ENVIRONMENT=production") config
load-IsLoaded_example = load-IsLoaded parser (codes "ENVIRONMENT=production") config config_loaded

abbrev pub load_client : LoadOptions → Result Text (Client Text)
load_client options =
    ok (record { put_object = λ s o. (none, s); get_object = λ s bucket key. err no_such_key })

abbrev pub env : Env
env = record { uuid_text = λ x. codes "u1"; unique = codes "x"; year = 2024; month = 3; day = 9 }

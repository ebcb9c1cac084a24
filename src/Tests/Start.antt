-- ===== src/Tests/Start.antt =====
-- Examples for main of cmd/server.
use frego_finance.Prelude.{
  ◌≡◌, refl, ◌↔◌, ◌⊎◌, true, [], nat_eq, Text, text_beq, text_eq, codes, ok,
}
use frego_finance.Strings.{trim_space, trim_func, trim_left, trim_right, is_space}
use frego_finance.Context.Claims.{values}
use frego_finance.Config.{EnvParser, load, get_env_or_default, get_env, graceful_delay}
use frego_finance.Auth.Authenticator.{normalize_audiences, new_authenticator}
use frego_finance.Db.Pool.{PgxPool, new_pool, configure}
use frego_finance.Db.Sessions
use frego_finance.Tenants
use frego_finance.Storage.Noop.{new_noop_uploader}
use frego_finance.Server.Router.Laws.{IsServed, IsRefused}
use frego_finance.Main.{document_uploader}
use frego_finance.Main.Start.{
  World, Service, start_up, auth_config, pool_for, registry_of, api_handler_of, finance_service_of,
  tenant_service_of,
}
use frego_finance.Main.Start.Wiring.{
  HasPools, HasRegistry, HasRoutes, HasFinanceSchema, router_of-mediates, start_up-finance_schema,
}
use frego_finance.Tests.Samples.{ascii, authenticator, token, request, closed, answer_ok}
use frego_finance.Tests.Chain.{parser, load_client, storage, config}
use frego_finance.Tests.Chain
use frego_finance.Tests.Db.{pgx, pools}
use frego_finance.Tests.Api.{setup}

abbrev pub answering : PgxPool Text
answering = record pgx { ping = λ pool. ok tt }

abbrev pub world : World Text Text Text
world = record {
  parser = parser;
  provider = λ issuer. ok (λ raw. ok token);
  pgx = answering;
  aws = load_client;
  unicode = ascii;
  visit = values;
  storage_env = Chain.env;
  setup = setup;
  chi = record {
    request_id = λ handler. handler;
    real_ip = λ handler. handler;
    recoverer = λ handler. handler;
    serve = λ middlewares routes. answer_ok;
  };
  mux = λ routes. answer_ok;
  cors = λ origins handler. handler;
  parse_uuid = λ s. ok s;
  active_in = λ pool tenant. ok true;
  sessions_on = λ tenant_pool service_pool. pools;
  active_schema_on = λ pool tenant. ok (codes "fin_t1");
}

-- The service without a document store.
abbrev pub plain_parser : EnvParser Text
plain_parser = record parser { parse_storage = λ env. ok (record storage { bucket = [] }) }

abbrev pub plain : World Text Text Text
plain = record world { parser = plain_parser }

abbrev pub service : Service Text Text
service = record {
  config = record config { storage = record storage { bucket = [] } };
  authenticator = authenticator;
  tenant_pool = codes "postgres://db";
  finance_pool = codes "postgres://db";
  uploader = new_noop_uploader;
}

started : start_up plain (codes "ENVIRONMENT=production") ≡ ok service
unfolding start_up load get_env_or_default get_env graceful_delay text_beq auth_config
    new_authenticator normalize_audiences trim_space trim_func trim_left trim_right is_space
    pool_for new_pool configure document_uploader
started = refl

router_of-mediates_example :
    HasPools plain service
    × (new_authenticator plain.provider (auth_config service.config.security)
        ≡ ok service.authenticator)
    × HasRegistry plain service
    × HasRoutes plain service
    × (IsServed ascii values authenticator
          (registry_of plain service)
          request
          (api_handler_of plain service)
        ⊎ IsRefused ascii values authenticator (registry_of plain service) request)
router_of-mediates_example =
    router_of-mediates plain (codes "ENVIRONMENT=production") service request started closed

start_up-finance_schema_example :
    HasPools plain service
    × ((Sessions.get_tenant_schema (finance_service_of plain service).repo.sessions (codes "t1")
          ≡ ok (codes "fin_t1"))
        ↔ HasFinanceSchema plain service (codes "t1") (codes "fin_t1"))
    × ((Tenants.service_tenant_schema (tenant_service_of plain service) (codes "t1")
          ≡ ok (codes "fin_t1"))
        ↔ (plain.active_schema_on service.tenant_pool (codes "t1") ≡ ok (codes "fin_t1")))
start_up-finance_schema_example =
    start_up-finance_schema plain (codes "ENVIRONMENT=production") service (codes "t1")
      (codes "fin_t1") started

-- ===== src/Config/Laws.antt =====
-- What a loaded configuration is.
use frego_finance.Prelude.{
  ◌≡◌, refl, [], nat_eq, Text, text_beq, text_eq, codes, Result, ok, err, ◌>>=◌, wrap_err,
}
use mathlib.Core.Path.{subst}
use frego_finance.Config.{
  config_of, tenant_database_failed, database_failed, security_failed, storage_failed, Config,
  EnvParser, DatabaseConfig, SecurityConfig, StorageConfig, load, graceful_delay,
  get_env_or_default, get_env,
}

module _ {E : Type 0} (lib : EnvParser E) (env : E) where
  -- The four structs are the parsed ones; the other fields are fixed.
  pub record IsLoaded (cfg : Config) : Type 0 where
    pub tenant_database : lib.parse_database env (codes "TENANT_DB_") ≡ ok cfg.tenant_database
    pub database : lib.parse_database env (codes "DB_") ≡ ok cfg.database
    pub security : lib.parse_security env ≡ ok cfg.security
    pub storage : lib.parse_storage env ≡ ok cfg.storage
    pub environment : cfg.environment ≡ codes "development"
    pub http_address : cfg.http_address ≡ codes ":8080"
    pub internal_secret : cfg.internal_secret ≡ []
    pub delay : cfg.graceful_delay ≡ graceful_delay lib

unfoldable IsMade :
    (a b : Result Text DatabaseConfig)
    → Result Text SecurityConfig
    → Result Text StorageConfig
    → (DatabaseConfig → DatabaseConfig → SecurityConfig → StorageConfig → Config)
    → Config
    → Type 0
IsMade a b c d f cfg =
    (t : DatabaseConfig) × (u : DatabaseConfig) × (v : SecurityConfig) × (w : StorageConfig) × (a
      ≡ ok t)
    × (b ≡ ok u)
    × (c ≡ ok v)
    × (d ≡ ok w)
    × (f t u v w ≡ cfg)

chain-IsMade :
    (a b : Result Text DatabaseConfig) (c : Result Text SecurityConfig)
    (d : Result Text StorageConfig)
    (f : DatabaseConfig → DatabaseConfig → SecurityConfig → StorageConfig → Config) (cfg : Config)
    → (do
      t ← wrap_err tenant_database_failed a
      u ← wrap_err database_failed b
      v ← wrap_err security_failed c
      w ← wrap_err storage_failed d
      ok (f t u v w))
      ≡ ok cfg
    → IsMade a b c d f cfg
unfolding IsMade
chain-IsMade (ok t) (ok u) (ok v) (ok w) f cfg h =
    (t, u, v, w, refl, refl, refl, refl, let k = h in cc)
chain-IsMade (err e) b c d f cfg h = absurd (let k = h in cc)
chain-IsMade (ok t) (err e) c d f cfg h = absurd (let k = h in cc)
chain-IsMade (ok t) (ok u) (err e) d f cfg h = absurd (let k = h in cc)
chain-IsMade (ok t) (ok u) (ok v) (err e) f cfg h = absurd (let k = h in cc)

made-IsLoaded :
    {E : Type 0}
    → (lib : EnvParser E) (env : E) (cfg : Config)
    → IsMade
        (lib.parse_database env (codes "TENANT_DB_"))
        (lib.parse_database env (codes "DB_"))
        (lib.parse_security env)
        (lib.parse_storage env)
        (config_of lib)
        cfg
    → IsLoaded lib env cfg
unfolding IsMade get_env_or_default get_env text_beq
made-IsLoaded lib env cfg (t, d, s, g, et, ed, es, eg, e) =
    subst (λ c. IsLoaded lib env c) e
      (record {
        tenant_database = et;
        database = ed;
        security = es;
        storage = eg;
        environment = refl;
        http_address = refl;
        internal_secret = refl;
        delay = refl;
      })

-- A configuration that is loaded has the four parsed structs, and whatever the environment is, its
-- environment is "development", its address ":8080" and its internal secret empty.
pub load-IsLoaded :
    {E : Type 0}
    → (lib : EnvParser E) (env : E) (cfg : Config) → load lib env ≡ ok cfg
    → IsLoaded lib env cfg
unfolding load
load-IsLoaded lib env cfg h = made-IsLoaded lib env cfg (chain-IsMade _ _ _ _ _ cfg h)

-- ===== src/Main/Start/Laws.antt =====
-- What the process is made of, and how it ends.
use frego_finance.Prelude.{
  ℕ, List, ◌≡◌, ◌⊎◌, [], ◌∷◌, nat_eq, Text, text_eq, Result, ok, err, wrap_err, >>=-eq-ok,
}
use frego_finance.Prelude.{wrap_err-eq-ok, ok-injective}
use mathlib.Core.Path.{subst}
use frego_finance.Config.{Config, DatabaseConfig, load}
use frego_finance.Db.Pool.Laws.{IsMadeBy}
use frego_finance.Auth.Authenticator.{Authenticator, new_authenticator}
use frego_finance.Main.{document_uploader}
use frego_finance.Main.Start.{
  World, Service, StartError, closed_by, config_failed, authenticator_failed, tenant_pool_failed,
  finance_pool_failed, storage_failed, auth_config, pool_for, with_config, with_authenticator,
  with_tenant_pool, with_finance_pool, assembled, start_up, main,
}

module _ {E S P : Type 0} (w : World E S P) (env : E) where
  -- Each part of the service is made of its own section of the configuration.
  pub record IsMade (s : Service S P) : Type 0 where
    pub config : load w.parser env ≡ ok s.config
    pub authenticator :
        new_authenticator w.provider (auth_config s.config.security) ≡ ok s.authenticator
    pub tenant_pool : pool_for w s.config.tenant_database ≡ ok s.tenant_pool
    pub finance_pool : pool_for w s.config.database ≡ ok s.finance_pool
    pub uploader : document_uploader w.unicode w.storage_env w.aws s.config.storage ≡ ok s.uploader

  pub start_up_sound : (s : Service S P) → start_up w env ≡ ok s → IsMade s
  unfolding start_up
  start_up_sound s h =
      let (cfg, e1, h1) =
        >>=-eq-ok (wrap_err config_failed (load w.parser env)) (with_config w) h in
      let (a, e2, h2) =
        >>=-eq-ok
          (wrap_err authenticator_failed (new_authenticator w.provider (auth_config cfg.security)))
          (with_authenticator w cfg) h1 in
      let (tp, e3, h3) =
        >>=-eq-ok (wrap_err tenant_pool_failed (pool_for w cfg.tenant_database))
          (with_tenant_pool w cfg a) h2 in
      let (fp, e4, h4) =
        >>=-eq-ok (wrap_err finance_pool_failed (pool_for w cfg.database))
          (with_finance_pool w cfg a tp) h3 in
      let (up, e5, h5) =
        >>=-eq-ok
          (wrap_err storage_failed (document_uploader w.unicode w.storage_env w.aws cfg.storage))
          (assembled w cfg a tp fp) h4 in
      subst IsMade (ok-injective h5) (record {
        config = wrap_err-eq-ok config_failed _ e1;
        authenticator = wrap_err-eq-ok authenticator_failed _ e2;
        tenant_pool = wrap_err-eq-ok tenant_pool_failed _ e3;
        finance_pool = wrap_err-eq-ok finance_pool_failed _ e4;
        uploader = wrap_err-eq-ok storage_failed _ e5;
      })

  -- How the process ends if it has started.
  abbrev pub IsServed : (stop : ℕ → Result Text (Unit {0})) → Service S P → Type 0
  IsServed stop s = IsMade s × (stop 30000000000 ≡ ok tt)

  unfoldable pub Closes : (stop : ℕ → Result Text (Unit {0})) → Type 0
  Closes stop =
      (s : Service S P) × IsServed stop s
      × (main w stop env ≡ record { code = 0; closed = s.finance_pool ∷ s.tenant_pool ∷ [] })

  -- A pool that was made of this section of the configuration but did not answer its ping.
  abbrev pub IsUnanswered : Config → P → Type 0
  IsUnanswered cfg pool =
      (d : DatabaseConfig) × ((d ≡ cfg.tenant_database) ⊎ (d ≡ cfg.database))
      × IsMadeBy w.pgx d.url d.max_open_conns d.max_idle_conns d.conn_max_lifetime
          d.prefer_simple_proto pool
      × ((e : Text) × (w.pgx.ping pool ≡ err e))

  -- No pool is closed, or only one that did not answer its ping.
  abbrev pub ClosesNone : List P → Type 0
  ClosesNone pools =
      (pools ≡ [])
      ⊎ ((cfg : Config) × (pool : P) × (load w.parser env ≡ ok cfg)
          × IsUnanswered cfg pool
          × (pools ≡ pool ∷ []))

  abbrev StopsClean : Result (StartError P) (Service S P) → Type 0
  StopsClean (ok s) = Unit {0}
  StopsClean (err e) = ClosesNone (closed_by e)

  unfoldable pub Fails : (stop : ℕ → Result Text (Unit {0})) → Type 0
  Fails stop =
      (¬ ((s : Service S P) × IsServed stop s))
      × (pools : List P) × ClosesNone pools
      × (main w stop env ≡ record { code = 1; closed = pools })

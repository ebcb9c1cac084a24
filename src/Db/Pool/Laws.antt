-- ===== src/Db/Pool/Laws.antt =====
-- What becomes of a pool that NewPool makes.
use Prim.Native.Nat.{◌^◌}
use frego_finance.Prelude.{
  ℕ, ◌%◌, ◌≡◌, refl, sym, ap, ◌∙◌, ◌⊎◌, ◌↔◌, inl, inr, Bool, true, false, [], ◌∷◌, nat_eq, Text,
  text_eq, Result, ok, err, ok-injective,
}
use mathlib.Core.Path.{subst}
use frego_finance.Db.Pool.{
  exec_mode, simple_protocol, PoolConfig, PgxPool, Opened, configure, pinged, created, parsed,
  new_pool,
}

-- A configuration that is the parsed one but for the four settings, of which the two numbers are cut
-- to 32 bits.
pub record IsAsked (max_open max_idle lifetime : ℕ) (simple : Bool) (config asked : PoolConfig)
    : Type 0 where
  pub url : asked.url ≡ config.url
  pub max_conns : asked.max_conns ≡ max_open % 2 ^ 32
  pub min_conns : asked.min_conns ≡ max_idle % 2 ^ 32
  pub max_conn_lifetime : asked.max_conn_lifetime ≡ lifetime
  pub simple_mode : simple ≡ true → asked.default_query_exec_mode ≡ simple_protocol
  pub exec_mode_else : simple ≡ false → asked.default_query_exec_mode ≡ exec_mode

configure-IsAsked :
    (max_open max_idle lifetime : ℕ) (simple : Bool) (config : PoolConfig)
    → IsAsked max_open max_idle lifetime simple config
        (configure max_open max_idle lifetime simple config)
unfolding configure
configure-IsAsked max_open max_idle lifetime simple config = record {
  url = refl;
  max_conns = refl;
  min_conns = refl;
  max_conn_lifetime = refl;
  simple_mode = λ h. rw h;
  exec_mode_else = λ h. rw h;
}

-- There is one such configuration.
asked-configure :
    (max_open max_idle lifetime : ℕ) (simple : Bool) (config asked : PoolConfig)
    → IsAsked max_open max_idle lifetime simple config asked
    → asked ≡ configure max_open max_idle lifetime simple config
unfolding configure
asked-configure max_open max_idle lifetime true config asked h = λ i. record {
  url = h.url i;
  max_conns = h.max_conns i;
  min_conns = h.min_conns i;
  max_conn_lifetime = h.max_conn_lifetime i;
  default_query_exec_mode = h.simple_mode refl i;
}
asked-configure max_open max_idle lifetime false config asked h = λ i. record {
  url = h.url i;
  max_conns = h.max_conns i;
  min_conns = h.min_conns i;
  max_conn_lifetime = h.max_conn_lifetime i;
  default_query_exec_mode = h.exec_mode_else refl i;
}

module _ {P : Type 0} (lib : PgxPool P) (url : Text) (max_open max_idle lifetime : ℕ)
    (simple : Bool) where
  -- The library made this pool of the URL and the settings.
  abbrev pub IsMadeBy : P → Type 0
  IsMadeBy pool =
      (config : PoolConfig) × (asked : PoolConfig) × (lib.parse_config url ≡ ok config)
      × IsAsked max_open max_idle lifetime simple config asked
      × (lib.new_with_config asked ≡ ok pool)

  abbrev pub Answers : P → Type 0
  Answers pool = lib.ping pool ≡ ok tt

  abbrev pub FailsPing : P → Type 0
  FailsPing pool = (e : Text) × (lib.ping pool ≡ err e)

  -- What a call gives and closes, whichever pool is asked for.
  abbrev pub Owns : Opened P → P → Type 0
  Owns o pool =
      ((o.answer ≡ ok pool) ↔ (IsMadeBy pool × Answers pool))
      × ((o.closed ≡ pool ∷ []) ↔ (IsMadeBy pool × FailsPing pool))

  abbrev pub ClosesAtMost : Opened P → Type 0
  ClosesAtMost o =
      (o.closed ≡ []) ⊎ ((pool : P) × IsMadeBy pool × FailsPing pool × (o.closed ≡ pool ∷ []))

  abbrev set : PoolConfig → PoolConfig
  set = configure max_open max_idle lifetime simple

  -- There is one pool that is made.
  made_once :
      (config : PoolConfig) (pool other : P)
      → lib.parse_config url ≡ ok config
      → lib.new_with_config (set config) ≡ ok pool
      → IsMadeBy other
      → other ≡ pool
  made_once config pool other p n (config', asked, p', a, n') =
      let same : config' ≡ config = ok-injective (sym p' ∙ p) in
      let e : asked ≡ set config =
        asked-configure max_open max_idle lifetime simple config' asked a ∙ ap set same in
      ok-injective (sym n' ∙ ap lib.new_with_config e ∙ n)

  none_made :
      {e : Text} (config : PoolConfig) (other : P)
      → lib.parse_config url ≡ ok config
      → lib.new_with_config (set config) ≡ err e
      → ¬ IsMadeBy other
  none_made config other p n (config', asked, p', a, n') =
      let same : config' ≡ config = ok-injective (sym p' ∙ p) in
      let e : asked ≡ set config =
        asked-configure max_open max_idle lifetime simple config' asked a ∙ ap set same in
      cc (sym n' ∙ ap lib.new_with_config e ∙ n)

  is_made :
      (config : PoolConfig) (pool : P)
      → lib.parse_config url ≡ ok config
      → lib.new_with_config (set config) ≡ ok pool
      → IsMadeBy pool
  is_made config pool p n =
      (config, set config, p, configure-IsAsked max_open max_idle lifetime simple config, n)

  pinged-Owns :
      (pool : P) (res : Result Text (Unit {0}))
      → IsMadeBy pool
      → ((other : P) → IsMadeBy other → other ≡ pool)
      → lib.ping pool ≡ res
      → ((other : P) → Owns (pinged lib pool res) other) × ClosesAtMost (pinged lib pool res)
  pinged-Owns pool (ok x) made once e = (
    λ other. (
      (
        λ h.
            let same : pool ≡ other = ok-injective h in
            (subst IsMadeBy same made, subst Answers same e),
        λ (m, a). ap (λ p. ok p) (sym (once other m)),
      ),
      (
        λ h. absurd (let k = h in cc),
        λ (m, (x, f)). absurd (cc (sym e ∙ ap lib.ping (sym (once other m)) ∙ f)),
      ),
    ),
    inl refl,
  )
  pinged-Owns pool (err x) made once e = (
    λ other. (
      (
        λ h. absurd (let k = h in cc),
        λ (m, a). absurd (cc (sym e ∙ ap lib.ping (sym (once other m)) ∙ a)),
      ),
      (
        λ h.
            let same : pool ≡ other = cc h in
            (subst IsMadeBy same made, subst FailsPing same (x, e)),
        λ (m, f). ap (λ p. p ∷ []) (sym (once other m)),
      ),
    ),
    inr (pool, made, (x, e), refl),
  )

  unmade-Owns :
      (o : Opened P)
      → ((pool : P) → ¬ (o.answer ≡ ok pool))
      → o.closed ≡ []
      → ((pool : P) → ¬ IsMadeBy pool)
      → ((pool : P) → Owns o pool) × ClosesAtMost o
  unmade-Owns o unanswered closed unmade = (
    λ pool. (
      (λ h. absurd (unanswered pool h), λ (m, a). absurd (unmade pool m)),
      (λ h. absurd (cc (closed, h)), λ (m, f). absurd (unmade pool m)),
    ),
    inl closed,
  )

  created-Owns :
      (config : PoolConfig) (res : Result Text P)
      → lib.parse_config url ≡ ok config
      → lib.new_with_config (set config) ≡ res
      → ((pool : P) → Owns (created lib res) pool) × ClosesAtMost (created lib res)
  created-Owns config (ok pool) p n =
      pinged-Owns pool (lib.ping pool) (is_made config pool p n)
        (λ other. made_once config pool other p n) refl
  created-Owns config (err e) p n =
      unmade-Owns (created lib (err e)) (λ pool h. let k = h in cc) refl
        (λ pool. none_made config pool p n)

  parsed-Owns :
      (res : Result Text PoolConfig)
      → lib.parse_config url ≡ res
      → ((pool : P) → Owns (parsed lib set res) pool) × ClosesAtMost (parsed lib set res)
  parsed-Owns (ok config) p = created-Owns config (lib.new_with_config (set config)) p refl
  parsed-Owns (err e) p =
      unmade-Owns (parsed lib set (err e)) (λ pool h. let k = h in cc) refl
        (λ pool (config, asked, p', a, n). cc (p, p'))

-- A pool is given exactly when the library made it of the URL and the settings and it answers the
-- ping, and is closed exactly when it was so made and does not answer; no other pool is closed. The
-- settings are the most and the fewest connections, each cut to 32 bits, the lifetime and the mode of
-- queries; the rest is as the URL says.
pub new_pool-Owns :
    {P : Type 0} (lib : PgxPool P) (url : Text) (max_open max_idle lifetime : ℕ) (simple : Bool)
    → let o = new_pool lib url max_open max_idle lifetime simple in
      ((pool : P) → Owns lib url max_open max_idle lifetime simple o pool)
      × ClosesAtMost lib url max_open max_idle lifetime simple o
unfolding new_pool
new_pool-Owns lib url max_open max_idle lifetime simple =
    parsed-Owns lib url max_open max_idle lifetime simple (lib.parse_config url) refl

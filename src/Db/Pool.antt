-- ===== src/Db/Pool.antt =====
-- internal/db/pool.go. Numbers are bit patterns of Go integers.
pub mod Laws
use Prim.Native.Nat.{◌^◌}
use frego_finance.Prelude.{ℕ, ◌%◌, Bool, List, [], ◌∷◌, if◌then◌else◌, Text, Result, ok, err}

pub data ExecMode : Type 0 where
  exec_mode simple_protocol : ExecMode

-- pgxpool.Config: what ParseConfig reads from the URL, and the fields that NewPool sets.
pub record PoolConfig : Type 0 where
  pub url : Text
  pub max_conns : ℕ
  pub min_conns : ℕ
  pub max_conn_lifetime : ℕ
  pub default_query_exec_mode : ExecMode

pub data PoolError : Type 0 where
  parse_failed create_failed ping_failed : Text → PoolError

-- The library's ParseConfig, NewWithConfig and Ping, over the type of its pools.
pub record PgxPool (P : Type 0) : Type 0 where
  pub parse_config : Text → Result Text PoolConfig
  pub new_with_config : PoolConfig → Result Text P
  pub ping : P → Result Text (Unit {0})

-- A call's pool, and the pools that were closed again.
pub record Opened (P : Type 0) : Type 0 where
  pub answer : Result PoolError P
  pub closed : List P

-- int32(n), on the bit pattern of an int.
abbrev pub to_int32 : ℕ → ℕ
to_int32 n = n % 2 ^ 32

unfoldable pub configure : (max_open max_idle lifetime : ℕ) → Bool → PoolConfig → PoolConfig
configure max_open max_idle lifetime simple config = record config {
  max_conns = to_int32 max_open;
  min_conns = to_int32 max_idle;
  max_conn_lifetime = lifetime;
  default_query_exec_mode = if simple then simple_protocol else exec_mode;
}

module _ {P : Type 0} (lib : PgxPool P) where
  abbrev pub pinged : P → Result Text (Unit {0}) → Opened P
  pinged pool (ok _) = record { answer = ok pool; closed = [] }
  pinged pool (err e) = record { answer = err (ping_failed e); closed = pool ∷ [] }

  abbrev pub created : Result Text P → Opened P
  created (ok pool) = pinged pool (lib.ping pool)
  created (err e) = record { answer = err (create_failed e); closed = [] }

  abbrev pub parsed : (PoolConfig → PoolConfig) → Result Text PoolConfig → Opened P
  parsed set (ok config) = created (lib.new_with_config (set config))
  parsed set (err e) = record { answer = err (parse_failed e); closed = [] }

  unfoldable pub new_pool : Text → (max_open max_idle lifetime : ℕ) → Bool → Opened P
  unfolding configure
  new_pool url max_open max_idle lifetime simple =
      parsed (configure max_open max_idle lifetime simple) (lib.parse_config url)

-- ===== src/Tests/Db.antt =====
-- Examples for package internal/db.
use frego_finance.Prelude.{
  ◌≡◌, ◌↔◌, ◌⊎◌, true, false, [], ◌∷◌, ◌++◌, nat_eq, text_eq, codes, length, ok, err, Text, refl,
}
use frego_finance.Db.Query.{query_failed, acquires, releases, applied_texts}
use frego_finance.Db.Provision.{ensure_provisioning, load_failed, Env, initial}
use frego_finance.Db.Provision.Failing.{stuck, run-load_failed}
use frego_finance.Db.Provision.Laws.{run, run-once}
use frego_finance.Prelude.{ℕ, zero, suc, List}
use frego_finance.Db.Sessions.Park
use frego_finance.Db.Sessions.Park.{Move, arrives, goes_on, closes, drops, makes, uses, empty}
use frego_finance.Db.Sessions.Park.Invariant.{Sets, Inv}
use frego_finance.Db.Sessions.Park.Isolation.{run-Inv}
use frego_finance.Db.Sessions.Park.Separation.{QuotesApart, run-separates}
use frego_finance.Db.Sessions.Park.{Lease}
use frego_finance.Prelude.{length}
use frego_finance.Db.Sessions.{search_path_command, schema_column}
use mathlib.Core.List.{append_cancel_right}
use frego_finance.Prelude.{text_beq, ◌++◌, ◌≢◌}
use frego_finance.Db.Pool.{exec_mode, PgxPool, new_pool}
use frego_finance.Db.Pool.Laws.{Owns, ClosesAtMost, new_pool-Owns}
use frego_finance.Db.Sessions.{Pools, TenantSessionManager, get_tenant_schema, get_session}
use frego_finance.Db.Sessions.Laws.{HasSchema, get_tenant_schema-eq-ok_iff}

abbrev pub pools : Pools
pools = record {
  schema_of = λ column tenant service. ok (codes "fin_t1");
  has_module = λ tenant service. ok true;
  info_of = λ tenant. err (query_failed (codes "down"));
  acquire = ok tt;
  exec = λ sql. err (codes "refused");
  quote = λ s. b'"' ∷ (s ++ (b'"' ∷ []));
}

abbrev manager : TenantSessionManager
manager = record { pools = pools; service_name = codes "finance" }

get_tenant_schema-eq-ok_iff_example :
    (get_tenant_schema manager (codes "t1") ≡ ok (codes "fin_t1"))
    ↔ HasSchema manager (codes "t1") (codes "fin_t1")
get_tenant_schema-eq-ok_iff_example =
    get_tenant_schema-eq-ok_iff manager (codes "t1") (codes "fin_t1")

-- A database that is down, and one that works.
abbrev pub down : Env
down = record {
  read_file = λ name. ok (codes "CREATE SCHEMA x");
  acquire = err (codes "down");
  exec = λ sql. ok tt;
}

abbrev pub up : Env
up = record down { acquire = ok tt }

run-once_example :
    (acquires (run (down ∷ up ∷ up ∷ []) initial).0
      ≡ releases (run (down ∷ up ∷ up ∷ []) initial).0)
    × (((run (down ∷ up ∷ up ∷ []) initial).1.applied ≡ false)
          × (length (applied_texts (run (down ∷ up ∷ up ∷ []) initial).0) ≡ 0)
        ⊎ ((run (down ∷ up ∷ up ∷ []) initial).1.applied ≡ true)
          × (length (applied_texts (run (down ∷ up ∷ up ∷ []) initial).0) ≡ 1))
run-once_example = run-once (down ∷ up ∷ up ∷ [])

-- A server that does not answer the ping.
abbrev pub pgx : PgxPool Text
pgx = record {
  parse_config = λ url. ok (record {
    url = url;
    max_conns = 4;
    min_conns = 0;
    max_conn_lifetime = 3600000000000;
    default_query_exec_mode = exec_mode;
  });
  new_with_config = λ config. ok config.url;
  ping = λ pool. err (codes "refused");
}

new_pool-Owns_example :
    let o = new_pool pgx (codes "postgres://db") 25 5 300000000000 false in
    ((pool : Text) → Owns pgx (codes "postgres://db") 25 5 300000000000 false o pool)
    × ClosesAtMost pgx (codes "postgres://db") 25 5 300000000000 false o
new_pool-Owns_example = new_pool-Owns pgx (codes "postgres://db") 25 5 300000000000 false

-- No file can be read.
abbrev bare : Env
bare = record up { read_file = λ name. err (codes "no such file") }

run-load_failed_example :
    (e : Text) × (run (bare ∷ up ∷ []) initial ≡ ([], stuck [] e))
    × ((ensure_provisioning up (run (bare ∷ up ∷ []) initial).1).answer ≡ err (load_failed e))
run-load_failed_example = run-load_failed bare up (up ∷ []) (λ name. (codes "no such file", refl))

-- A database on which a command sets the search path to what stands after its first words.
abbrev after_words : ℕ → Text → Text
after_words zero s = s
after_words (suc n) [] = []
after_words (suc n) (c ∷ s) = after_words n s

abbrev effect : Text → Text → Text
effect command path = after_words 19 command

effect-Sets : Sets effect
effect-Sets path old = refl

-- Two calls at the same time: the second one fails, and its connection comes back behind the first
-- one's session.
abbrev history : List Move
history =
    makes
    ∷ uses 0 (codes "hrms, public")
    ∷ arrives (codes "t1") (ok tt) (λ sql. ok tt)
    ∷ goes_on 0 0 true
    ∷ arrives (codes "t2") (ok tt) (λ sql. err (codes "refused"))
    ∷ goes_on 0 0 true
    ∷ goes_on 1 0 true
    ∷ goes_on 1 0 true
    ∷ goes_on 0 0 true
    ∷ goes_on 0 0 true
    ∷ closes true 0
    ∷ drops 0
    ∷ []

run-Inv_example : Inv manager (Park.run (codes "public") effect manager empty history)
run-Inv_example = run-Inv (codes "public") effect manager effect-Sets history

-- Two calls that both give a session, the second one on a connection that is made for it.
abbrev both : List Move
both =
    arrives (codes "t1") (ok tt) (λ sql. ok tt)
    ∷ arrives (codes "t2") (ok tt) (λ sql. ok tt)
    ∷ goes_on 0 0 true
    ∷ goes_on 1 0 true
    ∷ goes_on 1 0 true
    ∷ goes_on 1 0 true
    ∷ goes_on 0 0 true
    ∷ goes_on 0 0 true
    ∷ []

abbrev session_of : Text → ℕ → Lease
session_of tenant id = record {
  tenant = tenant;
  conn = record { search_path = search_path_command pools (codes "fin_t1") };
  backend = record { id = id; search_path = pools.quote (codes "fin_t1") ++ codes ", public" };
}

both_open :
    (Park.run (codes "public") effect manager empty both).lent
    ≡ session_of (codes "t2") 0 ∷ session_of (codes "t1") 1 ∷ []
unfolding Park.run Park.step Park.act Park.take_at get_session get_tenant_schema schema_column
    text_beq
both_open = refl

pools-QuotesApart : QuotesApart manager
pools-QuotesApart t t' a b has has' e = append_cancel_right a b (b'"' ∷ []) (let h = e in cc)

run-separates_example :
    ((session_of (codes "t2") 0).backend.id ≢ (session_of (codes "t1") 1).backend.id)
    × ((session_of (codes "t2") 0).backend.search_path
          ≡ (session_of (codes "t1") 1).backend.search_path
        → (schema : Text) × HasSchema manager (codes "t2") schema
          × HasSchema manager (codes "t1") schema)
run-separates_example =
    run-separates (codes "public") effect manager effect-Sets pools-QuotesApart both [] [] []
      (session_of (codes "t2") 0) (session_of (codes "t1") 1) both_open

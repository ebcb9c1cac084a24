-- ===== src/Db/Provision.antt =====
-- internal/db/provision.go. The mutex makes the calls a sequence, so a call is a function of the
-- package variables.
pub mod Laws
pub mod Failing
pub mod Calls
use frego_finance.Prelude.{
  Bool, true, false, Option, none, some, List, [], ◌∷◌, if◌then◌else◌, ◌==◌, nat_eq, Text, text_eq,
  codes, Result, ok, err,
}
use frego_finance.Paths.{path_join}
use frego_finance.Db.Query.{Event, acquired, released, executed}

-- The package variables. `loaded` says whether the sync.Once has run.
pub record Provision : Type 0 where
  pub applied : Bool
  pub loaded : Bool
  pub sql : Text
  pub load_err : Option Text

abbrev pub initial : Provision
initial = record { applied = false; loaded = false; sql = []; load_err = none }

pub data ProvisionError : Type 0 where
  load_failed : Text → ProvisionError
  script_empty : ProvisionError
  acquire_failed : Text → ProvisionError
  execute_failed : Text → ProvisionError

-- What a call meets outside: the files, and the answers of Acquire and of Exec.
pub record Env : Type 0 where
  pub read_file : Text → Result Text Text
  pub acquire : Result Text (Unit {0})
  pub exec : Text → Result Text (Unit {0})

unfoldable pub candidates : List Text
candidates =
    path_join (codes "db" ∷ codes "provision_tenant.sql" ∷ [])
    ∷ path_join (codes ".." ∷ codes "db" ∷ codes "provision_tenant.sql" ∷ [])
    ∷ path_join (codes "/" ∷ codes "app" ∷ codes "db" ∷ codes "provision_tenant.sql" ∷ [])
    ∷ []

-- What a file that was read gives, or the rest of the loop with the error.
abbrev pub read_or_next : Result Text Text → (Option Text → Text × Option Text) → Text × Option Text
read_or_next (ok content) next = (content, none)
read_or_next (err e) next = next (some e)

-- The loop over the candidates, over the two variables that it sets: the text and the error.
unfoldable pub try_candidates :
    (Text → Result Text Text) → List Text → Text × Option Text → Text × Option Text
try_candidates read [] found = found
try_candidates read (c ∷ cs) found =
    read_or_next (read c) λ load_err. try_candidates read cs (found.0, load_err)

-- financeProvisionLoadOnce.Do(…)
unfoldable pub load_once : Env → Provision → Provision
load_once env st =
    let found = try_candidates env.read_file candidates (st.sql, st.load_err) in
    if st.loaded then st else record st { loaded = true; sql = found.0; load_err = found.1 }

abbrev pub script_of : Provision → Option Text → Result ProvisionError Text
script_of st (some e) = err (load_failed e)
script_of st none = if st.sql == [] then err script_empty else ok st.sql

-- A call's answer, what it did to the database, and the package variables after it.
pub record Outcome : Type 0 where
  pub answer : Result ProvisionError (Unit {0})
  pub events : List Event
  pub after : Provision

abbrev pub executed_script : Provision → Text → Result Text (Unit {0}) → Outcome
executed_script st script (ok _) = record {
  answer = ok tt;
  events = acquired ∷ executed script true ∷ released ∷ [];
  after = record st { applied = true };
}
executed_script st script (err e) = record {
  answer = err (execute_failed e);
  events = acquired ∷ executed script false ∷ released ∷ [];
  after = st;
}

abbrev pub with_connection : Env → Provision → Text → Result Text (Unit {0}) → Outcome
with_connection env st script (ok _) = executed_script st script (env.exec script)
with_connection env st script (err e) = record {
  answer = err (acquire_failed e);
  events = [];
  after = st;
}

abbrev pub with_script : Env → Provision → Result ProvisionError Text → Outcome
with_script env st (ok script) = with_connection env st script env.acquire
with_script env st (err e) = record { answer = err e; events = []; after = st }

-- EnsureFinanceTenantProvisioning
unfoldable pub ensure_provisioning : Env → Provision → Outcome
ensure_provisioning env st =
    if st.applied
    then record { answer = ok tt; events = []; after = st }
    else let st' = load_once env st in with_script env st' (script_of st' st'.load_err)

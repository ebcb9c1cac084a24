-- ===== src/Db/Provision/Calls.antt =====
-- Concurrent calls of EnsureFinanceTenantProvisioning: the mutex of internal/db/provision.go, and
-- the statements of a call one by one.
pub mod Rest
pub mod Linear
pub mod Progress
use frego_finance.Prelude.{
  ℕ, suc, ◌≡◌, Bool, true, false, Option, none, some, List, [], ◌∷◌, ◌++◌, Text, Result, ok, err,
}
use frego_finance.Db.Query.{Event, acquired, released, executed}
use frego_finance.Db.Provision.{
  Provision, initial, ProvisionError, acquire_failed, execute_failed, Env, load_once, script_of,
}

abbrev pub Answer : Type 0
Answer = Result ProvisionError (Unit {0})

-- Where the call stands that holds the mutex.
pub data Phase : Type 0 where
  locked loading marking : Phase
  acquiring executing : (script : Text) → Phase
  releasing unlocking : Answer → Phase

-- One statement: where the call goes, the package variables after it, and what it did.
pub record Move : Type 0 where
  pub phase : Phase
  pub vars : Provision
  pub events : List Event

abbrev pub checked : Bool → Phase
checked true = unlocking (ok tt)
checked false = loading

abbrev pub with_script_phase : Result ProvisionError Text → Phase
with_script_phase (ok script) = acquiring script
with_script_phase (err e) = unlocking (err e)

abbrev pub acquire_move : Provision → Text → Result Text (Unit {0}) → Move
acquire_move st script (ok _) = record {
  phase = executing script;
  vars = st;
  events = acquired ∷ [];
}
acquire_move st script (err e) = record {
  phase = unlocking (err (acquire_failed e));
  vars = st;
  events = [];
}

abbrev pub execute_move : Provision → Text → Result Text (Unit {0}) → Move
execute_move st script (ok _) = record {
  phase = marking;
  vars = st;
  events = executed script true ∷ [];
}
execute_move st script (err e) = record {
  phase = releasing (err (execute_failed e));
  vars = st;
  events = executed script false ∷ [];
}

-- The mutex is the last to be released: the deferred Release runs before the deferred Unlock.
unfoldable pub advance : Env → Phase → Provision → Move
unfolding load_once
advance env locked st = record { phase = checked st.applied; vars = st; events = [] }
advance env loading st =
    let st' = load_once env st in
    record { phase = with_script_phase (script_of st' st'.load_err); vars = st'; events = [] }
advance env (acquiring script) st = acquire_move st script env.acquire
advance env (executing script) st = execute_move st script (env.exec script)
advance env marking st = record {
  phase = releasing (ok tt);
  vars = record st { applied = true };
  events = [];
}
advance env (releasing a) st = record { phase = unlocking a; vars = st; events = released ∷ [] }
advance env (unlocking a) st = record { phase = unlocking a; vars = st; events = [] }

-- The calls that wait for the mutex, the one that holds it with what it meets outside, the package
-- variables, what was done to the database, and the answers, each in the order in which they came.
pub record System : Type 0 where
  pub waiting : ℕ
  pub holder : Option (Env × Phase)
  pub vars : Provision
  pub events : List Event
  pub answers : List Answer

abbrev pub idle : System
idle = record { waiting = 0; holder = none; vars = initial; events = []; answers = [] }

abbrev pub is_unlocking : Phase → Bool
is_unlocking (unlocking a) = true
is_unlocking _ = false

abbrev pub with_call : System → System
with_call s = record s { waiting = suc s.waiting }

abbrev pub moved : Env → System → Move → System
moved env s m = record s {
  holder = some (env, m.phase);
  vars = m.vars;
  events = s.events ++ m.events;
}

-- The steps of the calls that are there: one of those that wait takes the mutex, the one that holds
-- it goes on by a statement, or returns and gives the mutex back.
pub data Work (s t : System) : Type 0 where
  lock :
      (env : Env) (n : ℕ)
      → s.holder ≡ none
      → s.waiting ≡ suc n
      → t ≡ record s { waiting = n; holder = some (env, locked) }
      → Work s t
  move :
      (env : Env) (p : Phase)
      → s.holder ≡ some (env, p)
      → is_unlocking p ≡ false
      → t ≡ moved env s (advance env p s.vars)
      → Work s t
  unlock :
      (env : Env) (a : Answer)
      → s.holder ≡ some (env, unlocking a)
      → t ≡ record s { holder = none; answers = s.answers ++ a ∷ [] }
      → Work s t

-- Or a new call comes.
pub data Step (s t : System) : Type 0 where
  call : t ≡ with_call s → Step s t
  work : Work s t → Step s t

pub data Reach : System → Type 0 where
  start : Reach idle
  later : {s t : System} → Reach s → Step s t → Reach t

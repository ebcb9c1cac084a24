-- ===== src/Db/Provision/Calls/Rest.antt =====
-- What a call of the provisioning still does, statement by statement.
use frego_finance.Prelude.{
  ◌≡◌, refl, ap, Bool, true, false, List, [], ◌∷◌, ◌++◌, if◌then◌else◌, nat_eq, Text, text_eq,
  Result, ok, err,
}
use frego_finance.Db.Query.{Event, acquired, released, executed}
use frego_finance.Db.Provision.{
  Provision, ProvisionError, execute_failed, Env, load_once, script_of, Outcome, executed_script,
  with_connection, with_script, ensure_provisioning,
}
use frego_finance.Db.Provision.Calls.{
  Phase, locked, loading, marking, acquiring, executing, releasing, unlocking, acquire_move,
  execute_move, advance, with_script_phase, checked,
}

abbrev pub execute_rest : Provision → Text → Result Text (Unit {0}) → Outcome
execute_rest st script (ok _) = record {
  answer = ok tt;
  events = executed script true ∷ released ∷ [];
  after = record st { applied = true };
}
execute_rest st script (err e) = record {
  answer = err (execute_failed e);
  events = executed script false ∷ released ∷ [];
  after = st;
}

-- What a call still does from where it stands.
unfoldable pub rest_of : Env → Phase → Provision → Outcome
rest_of env locked st = ensure_provisioning env st
rest_of env loading st =
    let st' = load_once env st in with_script env st' (script_of st' st'.load_err)
rest_of env (acquiring script) st = with_connection env st script env.acquire
rest_of env (executing script) st = execute_rest st script (env.exec script)
rest_of env marking st = record {
  answer = ok tt;
  events = released ∷ [];
  after = record st { applied = true };
}
rest_of env (releasing a) st = record { answer = a; events = released ∷ []; after = st }
rest_of env (unlocking a) st = record { answer = a; events = []; after = st }

abbrev pub after_events : List Event → Outcome → Outcome
after_events es o = record o { events = es ++ o.events }

abbrev flag_test : Env → Provision → Bool → Outcome
flag_test env st b =
    if b
    then record { answer = ok tt; events = []; after = st }
    else let st' = load_once env st in with_script env st' (script_of st' st'.load_err)

checked_rest :
    (env : Env) (st : Provision) (b : Bool)
    → st.applied ≡ b
    → rest_of env locked st ≡ rest_of env (checked b) st
unfolding rest_of ensure_provisioning
checked_rest env st true e = ap (flag_test env st) e
checked_rest env st false e = ap (flag_test env st) e

script_rest :
    (env : Env) (st : Provision) (r : Result ProvisionError Text)
    → with_script env st r ≡ rest_of env (with_script_phase r) st
unfolding rest_of
script_rest env st (ok script) = refl
script_rest env st (err e) = refl

executing_rest :
    (st : Provision) (script : Text) (r : Result Text (Unit {0}))
    → executed_script st script r ≡ after_events (acquired ∷ []) (execute_rest st script r)
executing_rest st script (ok x) = refl
executing_rest st script (err e) = refl

acquire_rest :
    (env : Env) (st : Provision) (script : Text) (r : Result Text (Unit {0}))
    → with_connection env st script r
      ≡ after_events
          (acquire_move st script r).events
          (rest_of env (acquire_move st script r).phase (acquire_move st script r).vars)
unfolding rest_of
acquire_rest env st script (ok x) = executing_rest st script (env.exec script)
acquire_rest env st script (err e) = refl

execute_rest_rest :
    (env : Env) (st : Provision) (script : Text) (r : Result Text (Unit {0}))
    → execute_rest st script r
      ≡ after_events
          (execute_move st script r).events
          (rest_of env (execute_move st script r).phase (execute_move st script r).vars)
unfolding rest_of
execute_rest_rest env st script (ok x) = refl
execute_rest_rest env st script (err e) = refl

-- A statement does the first part of what is left to do.
pub rest_of-advance :
    (env : Env) (p : Phase) (st : Provision)
    → rest_of env p st
      ≡ after_events
          (advance env p st).events
          (rest_of env (advance env p st).phase (advance env p st).vars)
unfolding advance rest_of
rest_of-advance env locked st = checked_rest env st st.applied refl
rest_of-advance env loading st =
    let st' = load_once env st in script_rest env st' (script_of st' st'.load_err)
rest_of-advance env (acquiring script) st = acquire_rest env st script env.acquire
rest_of-advance env (executing script) st = execute_rest_rest env st script (env.exec script)
rest_of-advance env marking st = refl
rest_of-advance env (releasing a) st = refl
rest_of-advance env (unlocking a) st = refl

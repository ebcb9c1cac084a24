-- ===== src/Db/Provision/Failing.antt =====
-- Calls after a first one that could not read the script.
use frego_finance.Prelude.{
  ◌≡◌, refl, ap, ◌∙◌, true, false, Option, none, some, List, [], ◌∷◌, ◌++◌, nat_eq, Text, text_eq,
  Result, err,
}
use frego_finance.Db.Query.{Event}
use frego_finance.Db.Provision.{
  Provision, initial, Env, candidates, try_candidates, read_or_next, load_once, script_of, Outcome,
  load_failed, with_script, ensure_provisioning,
}
use frego_finance.Db.Provision.Laws.{run}

-- The package variables once the script could not be read.
abbrev pub stuck : Text → Text → Provision
stuck sql e = record { applied = false; loaded = true; sql = sql; load_err = some e }

abbrev refused : Text → Text → Outcome
refused sql e = record { answer = err (load_failed e); events = []; after = stuck sql e }

ensure_provisioning-stuck :
    (env : Env) (sql e : Text) → ensure_provisioning env (stuck sql e) ≡ refused sql e
unfolding ensure_provisioning load_once
ensure_provisioning-stuck env sql e = refl

run-stuck : (envs : List Env) (sql e : Text) → run envs (stuck sql e) ≡ ([], stuck sql e)
unfolding run
run-stuck [] sql e = refl
run-stuck (env ∷ envs) sql e =
    ap (λ (o : Outcome). let (events, last) = run envs o.after in (o.events ++ events, last))
      (ensure_provisioning-stuck env sql e)
    ∙ ap (λ (r : List Event × Provision). ([] ++ r.0, r.1)) (run-stuck envs sql e)

module _ (read : Text → Result Text Text)
    (fails : (name : Text) → (e : Text) × (read name ≡ err e)) where
  try_candidates-failing :
      (cs : List Text) (sql x : Text)
      → (e : Text) × (try_candidates read cs (sql, some x) ≡ (sql, some e))
  unfolding try_candidates
  try_candidates-failing [] sql x = (x, refl)
  try_candidates-failing (c ∷ cs) sql x =
      let (y, failed) = fails c in
      let (e, rest) = try_candidates-failing cs sql y in
      (e, ap (λ r. read_or_next r λ l. try_candidates read cs (sql, l)) failed ∙ rest)

  first-failing :
      (c : Text) (cs : List Text)
      → (e : Text) × (try_candidates read (c ∷ cs) ([], none) ≡ ([], some e))
  unfolding try_candidates
  first-failing c cs =
      let (y, failed) = fails c in
      let (e, rest) = try_candidates-failing cs [] y in
      (e, ap (λ r. read_or_next r λ l. try_candidates read cs ([], l)) failed ∙ rest)

  candidates-failing : (e : Text) × (try_candidates read candidates ([], none) ≡ ([], some e))
  unfolding candidates
  candidates-failing = first-failing _ _

-- The rest of a first call, after what the loop found.
abbrev with_found : Env → Text × Option Text → Outcome
with_found env found =
    let st : Provision = record {
      applied = false;
      loaded = true;
      sql = found.0;
      load_err = found.1;
    } in
    with_script env st (script_of st st.load_err)

ensure_provisioning-failing :
    (env : Env) (e : Text)
    → try_candidates env.read_file candidates ([], none) ≡ ([], some e)
    → ensure_provisioning env initial ≡ refused [] e
unfolding ensure_provisioning load_once
ensure_provisioning-failing env e h = ap (λ found. with_found env found) h

-- If no file can be read at the first call, then no later call does anything, whatever files,
-- connections and database it meets: the variables stay as the first call left them, and a call
-- answers with the first call's error.
pub run-load_failed :
    (env env' : Env) (envs : List Env)
    → ((name : Text) → (e : Text) × (env.read_file name ≡ err e))
    → (e : Text) × (run (env ∷ envs) initial ≡ ([], stuck [] e))
      × ((ensure_provisioning env' (run (env ∷ envs) initial).1).answer ≡ err (load_failed e))
unfolding run
run-load_failed env env' envs fails =
    let (e, h) = candidates-failing env.read_file fails in
    let k : run (env ∷ envs) initial ≡ ([], stuck [] e) =
      ap (λ (o : Outcome). let (events, last) = run envs o.after in (o.events ++ events, last))
        (ensure_provisioning-failing env e h)
      ∙ ap (λ (r : List Event × Provision). ([] ++ r.0, r.1)) (run-stuck envs [] e) in
    (
      e,
      k,
      ap (λ (r : List Event × Provision). (ensure_provisioning env' r.1).answer) k
          ∙ ap (λ (o : Outcome). o.answer) (ensure_provisioning-stuck env' [] e),
    )

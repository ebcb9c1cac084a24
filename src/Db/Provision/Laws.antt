-- ===== src/Db/Provision/Laws.antt =====
-- The script is installed once, and connections go back.
use frego_finance.Prelude.{
  ◌+◌, ◌≡◌, refl, sym, ap, ◌∙◌, ◌↔◌, ◌⊎◌, inl, inr, Bool, true, false, List, [], ◌∷◌, ◌++◌, arith,
  Bool-cases, nat_eq, Text, text_eq, length, length-append, Result, ok, err,
}
use frego_finance.Db.Query.{
  acquired, released, executed, Event, acquires, releases, applied_texts, succeeded,
}
use frego_finance.Db.Provision.{
  Provision, Outcome, Env, ProvisionError, initial, ensure_provisioning, load_once, with_script,
  with_connection, executed_script,
}

-- The calls of a sequence of environments, one after the other: all that they did to the database,
-- and the variables at the end.
unfoldable pub run : List Env → Provision → List Event × Provision
run [] st = ([], st)
run (env ∷ envs) st =
    let o = ensure_provisioning env st in
    let (events, last) = run envs o.after in (o.events ++ events, last)

load_once-applied : (env : Env) (st : Provision) → (load_once env st).applied ≡ st.applied
unfolding load_once
load_once-applied env st = ground arith

-- What a call may do, by the flag before it.
record IsStep (st : Provision) (o : Outcome) : Type 0 where
  balanced : acquires o.events ≡ releases o.events
  -- the flag after the call, and the texts that it applied
  installs :
      ((o.after.applied ≡ st.applied) × (applied_texts o.events ≡ []))
      ⊎ ((st.applied ≡ false) × (o.after.applied ≡ true) × (length (applied_texts o.events) ≡ 1))
  answers : (succeeded o.answer ≡ true) ↔ (o.after.applied ≡ true)

executed-IsStep :
    (st st' : Provision) (script : Text) (r : Result Text (Unit {0}))
    → st.applied ≡ false
    → st'.applied ≡ false
    → IsStep st (executed_script st' script r)
executed-IsStep st st' script (ok x) e e' = record {
  balanced = refl;
  installs = inr (e, refl, refl);
  answers = (λ h. refl, λ h. refl);
}
executed-IsStep st st' script (err x) e e' = record {
  balanced = refl;
  installs = inl (e' ∙ sym e, refl);
  answers = (λ h. cc, λ h. cc);
}

failed-IsStep :
    (st st' : Provision) (x : ProvisionError)
    → st.applied ≡ false
    → st'.applied ≡ false
    → IsStep st (record { answer = err x; events = []; after = st' })
failed-IsStep st st' x e e' = record {
  balanced = refl;
  installs = inl (e' ∙ sym e, refl);
  answers = (λ h. cc, λ h. cc);
}

with_connection-IsStep :
    (env : Env) (st st' : Provision) (script : Text) (r : Result Text (Unit {0}))
    → st.applied ≡ false
    → st'.applied ≡ false
    → IsStep st (with_connection env st' script r)
with_connection-IsStep env st st' script (ok x) e e' =
    executed-IsStep st st' script (env.exec script) e e'
with_connection-IsStep env st st' script (err x) e e' = failed-IsStep st st' _ e e'

with_script-IsStep :
    (env : Env) (st st' : Provision) (r : Result ProvisionError Text)
    → st.applied ≡ false
    → st'.applied ≡ false
    → IsStep st (with_script env st' r)
with_script-IsStep env st st' (ok script) e e' =
    with_connection-IsStep env st st' script env.acquire e e'
with_script-IsStep env st st' (err x) e e' = failed-IsStep st st' x e e'

ensure_provisioning-IsStep : (env : Env) (st : Provision) → IsStep st (ensure_provisioning env st)
unfolding ensure_provisioning
ensure_provisioning-IsStep env st = elim (Bool-cases st.applied) [
  | inl e ↦
      simp e
        (record { balanced = refl; installs = inl (refl, refl); answers = (λ h. e, λ h. refl) })
  | inr e ↦ simp e (with_script-IsStep env st (load_once env st) _ e (load_once-applied env st ∙ e))
]

acquires-append : (es fs : List Event) → acquires (es ++ fs) ≡ acquires es + acquires fs
acquires-append [] fs = omega arith
acquires-append (acquired ∷ es) fs = omega (arith, acquires-append es fs)
acquires-append (released ∷ es) fs = acquires-append es fs
acquires-append (executed sql good ∷ es) fs = acquires-append es fs

releases-append : (es fs : List Event) → releases (es ++ fs) ≡ releases es + releases fs
releases-append [] fs = omega arith
releases-append (acquired ∷ es) fs = releases-append es fs
releases-append (released ∷ es) fs = omega (arith, releases-append es fs)
releases-append (executed sql good ∷ es) fs = releases-append es fs

pub applied_texts-append :
    (es fs : List Event) → applied_texts (es ++ fs) ≡ applied_texts es ++ applied_texts fs
applied_texts-append [] fs = refl
applied_texts-append (acquired ∷ es) fs = applied_texts-append es fs
applied_texts-append (released ∷ es) fs = applied_texts-append es fs
applied_texts-append (executed sql true ∷ es) fs = ap (λ l. sql ∷ l) (applied_texts-append es fs)
applied_texts-append (executed sql false ∷ es) fs = applied_texts-append es fs

-- From a state on, either the flag stays and nothing is installed, or it is set and the script is
-- installed once.
abbrev Installs : Provision → List Event → Provision → Type 0
Installs st events last =
    ((last.applied ≡ st.applied) × (length (applied_texts events) ≡ 0))
    ⊎ ((st.applied ≡ false) × (last.applied ≡ true) × (length (applied_texts events) ≡ 1))

run-balanced :
    (envs : List Env) (st : Provision) → acquires (run envs st).0 ≡ releases (run envs st).0
unfolding run
run-balanced [] st = refl
run-balanced (env ∷ envs) st =
    let o = ensure_provisioning env st in
    omega (
      arith,
      acquires-append o.events (run envs o.after).0,
      releases-append o.events (run envs o.after).0,
      (ensure_provisioning-IsStep env st).balanced,
      run-balanced envs o.after,
    )

Installs-append :
    (st mid last : Provision) (es fs : List Event)
    → ((mid.applied ≡ st.applied) × (applied_texts es ≡ []))
      ⊎ ((st.applied ≡ false) × (mid.applied ≡ true) × (length (applied_texts es) ≡ 1))
    → Installs mid fs last
    → Installs st (es ++ fs) last
Installs-append st mid last es fs (inl (a, e)) (inl (b, f)) =
    inl (b ∙ a, rw (applied_texts-append es fs, e) f)
Installs-append st mid last es fs (inl (a, e)) (inr (b, c, f)) =
    inr (sym a ∙ b, c, rw (applied_texts-append es fs, e) f)
Installs-append st mid last es fs (inr (a, b, e)) (inl (c, f)) = inr (
  a,
  c ∙ b,
  rw (applied_texts-append es fs)
      (omega (arith, length-append (applied_texts es) (applied_texts fs), e, f)),
)
Installs-append st mid last es fs (inr (a, b, e)) (inr (c, d, f)) = cc (sym b ∙ c)

run-Installs : (envs : List Env) (st : Provision) → Installs st (run envs st).0 (run envs st).1
unfolding run
run-Installs [] st = inl (refl, refl)
run-Installs (env ∷ envs) st =
    let o = ensure_provisioning env st in
    Installs-append st o.after (run envs o.after).1 o.events (run envs o.after).0
      (ensure_provisioning-IsStep env st).installs (run-Installs envs o.after)

-- In any sequence of calls, whatever files, connections and database do at each, every connection
-- that is acquired is released, and the script is executed with success once if the flag is set at
-- the end, and never if it is not.
pub run-once :
    (envs : List Env)
    → (acquires (run envs initial).0 ≡ releases (run envs initial).0)
      × (((run envs initial).1.applied ≡ false) × (length (applied_texts (run envs initial).0) ≡ 0)
          ⊎ ((run envs initial).1.applied ≡ true)
            × (length (applied_texts (run envs initial).0) ≡ 1))
run-once envs = (
  run-balanced envs initial,
  elim (run-Installs envs initial) [ inl (a, e) ↦ inl (a, e) | inr (a, b, e) ↦ inr (b, e) ],
)

settled :
    (env : Env) (st : Provision)
    → st.applied ≡ true
    → (succeeded (ensure_provisioning env st).answer ≡ true)
      × ((ensure_provisioning env st).events ≡ [])
      × ((ensure_provisioning env st).after ≡ st)
unfolding ensure_provisioning
settled env st e = simp e (refl, refl, refl)

-- The call answered with an error and left the flag unset, or it answered without one and set the
-- flag, and then a later call answers without an error and does nothing.
abbrev pub Settles : Env → Env → Provision → Type 0
Settles env env' st =
    let last = (ensure_provisioning env st).after in
    ((succeeded (ensure_provisioning env st).answer ≡ false) × (last.applied ≡ false))
    ⊎ ((succeeded (ensure_provisioning env st).answer ≡ true)
        × (last.applied ≡ true)
        × (succeeded (ensure_provisioning env' last).answer ≡ true)
        × ((ensure_provisioning env' last).events ≡ [])
        × ((ensure_provisioning env' last).after ≡ last))

not-true : (a b : Bool) → (a ≡ true) ↔ (b ≡ true) → b ≡ false → a ≡ false
not-true true b h e = cc (h.0 refl)
not-true false b h e = refl

-- A call either answers with an error and leaves the flag unset, or it answers without one and the
-- flag is set, and then the next call answers without an error too, does nothing to the database and
-- leaves the variables as they are.
pub ensure_provisioning-Settles : (env env' : Env) (st : Provision) → Settles env env' st
ensure_provisioning-Settles env env' st =
    let o = ensure_provisioning env st in
    let h = (ensure_provisioning-IsStep env st).answers in
    elim (Bool-cases o.after.applied) [
      | inl e ↦
          let (answers, nothing, same) = settled env' o.after e in
          inr (h.1 e, e, answers, nothing, same)
      | inr e ↦ inl (not-true (succeeded o.answer) o.after.applied h e, e)
    ]

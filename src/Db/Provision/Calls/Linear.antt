-- ===== src/Db/Provision/Calls/Linear.antt =====
-- Concurrent calls against calls one after the other.
use frego_finance.Prelude.{
  ◌≤◌, ◌≡◌, refl, sym, ap, ◌∙◌, Option, none, some, List, [], ◌∷◌, ◌++◌, append_assoc, append-nil,
  arith, nat_eq, text_eq, length, length-append,
}
use frego_finance.Db.Query.{Event, applied_texts}
use frego_finance.Db.Provision.{Provision, initial, Env, Outcome, ensure_provisioning}
use frego_finance.Db.Provision.Laws.{run, run-once, applied_texts-append}
use frego_finance.Db.Provision.Calls.{
  Answer, Phase, advance, System, with_call, moved, Work, lock, move, unlock, call, work, Reach,
  start, later,
}
use frego_finance.Db.Provision.Calls.Rest.{rest_of, after_events, rest_of-advance}

-- The answers, what was done to the database, and the package variables.
abbrev pub Trace : Type 0
Trace = List Answer × List Event × Provision

abbrev pub after_call : Env → Trace → Trace
after_call env (past, es, st) =
    let o = ensure_provisioning env st in (past ++ o.answer ∷ [], es ++ o.events, o.after)

-- Calls one after the other, from a trace on.
unfoldable pub sequential : List Env → Trace → Trace
sequential [] t = t
sequential (env ∷ envs) t = sequential envs (after_call env t)

sequential-concat :
    (envs : List Env) (env : Env) (t : Trace)
    → sequential (envs ++ env ∷ []) t ≡ after_call env (sequential envs t)
unfolding sequential
sequential-concat [] env t = refl
sequential-concat (e ∷ envs) env t = sequential-concat envs env (after_call e t)

-- The trace once the call that holds the mutex has returned.
abbrev pub extended : System → Outcome → Trace
extended s o = (s.answers ++ o.answer ∷ [], s.events ++ o.events, o.after)

abbrev pub completed_by : System → Option (Env × Phase) → Trace
completed_by s none = (s.answers, s.events, s.vars)
completed_by s (some (env, p)) = extended s (rest_of env p s.vars)

abbrev pub completed : System → Trace
completed s = completed_by s s.holder

with_call-completed :
    (s : System) (h : Option (Env × Phase)) → completed_by (with_call s) h ≡ completed_by s h
with_call-completed s none = refl
with_call-completed s (some h) = refl

extended-after_events :
    (s : System) (es : List Event) (o : Outcome) (h : Option (Env × Phase)) (st : Provision)
    → extended s (after_events es o)
      ≡ extended (record s { holder = h; vars = st; events = s.events ++ es }) o
extended-after_events s es o h st =
    ap (λ (l : List Event). (s.answers ++ o.answer ∷ [], l, o.after))
      (sym (append_assoc s.events es o.events))

moved-completed :
    (s : System) (env : Env) (p : Phase)
    → s.holder ≡ some (env, p)
    → completed (moved env s (advance env p s.vars)) ≡ completed s
moved-completed s env p e =
    let m = advance env p s.vars in
    sym (
      ap (completed_by s) e
      ∙ ap (extended s) (rest_of-advance env p s.vars)
      ∙ extended-after_events s m.events (rest_of env m.phase m.vars) (some (env, m.phase)) m.vars)

abbrev order_after : {s t : System} → List Env → Work s t → List Env
order_after order (lock env n free some_wait e) = order ++ env ∷ []
order_after order (move env p holds not_done e) = order
order_after order (unlock env a holds e) = order

-- The calls that have taken the mutex, in the order in which they took it, by what they meet outside.
unfoldable pub order_of : {s : System} → Reach s → List Env
order_of start = []
order_of (later r (call e)) = order_of r
order_of (later r (work w)) = order_after (order_of r) w

-- These calls, one after the other, give what is there once the call that holds the mutex has
-- returned.
unfoldable pub IsLinear : System → List Env → Type 0
IsLinear s order = completed s ≡ sequential order ([], [], initial)

Work-IsLinear :
    {s t : System} (order : List Env) (w : Work s t)
    → IsLinear s order
    → IsLinear t (order_after order w)
unfolding rest_of IsLinear
Work-IsLinear {s} order (lock env n free _ e) h =
    ap completed e
    ∙ ap (after_call env) (sym (ap (completed_by s) free) ∙ h)
    ∙ sym (sequential-concat order env ([], [], initial))
Work-IsLinear {s} order (move env p held _ e) h = ap completed e ∙ moved-completed s env p held ∙ h
Work-IsLinear {s} order (unlock env a held e) h =
    ap completed e
    ∙ ap (λ (l : List Event). (s.answers ++ a ∷ [], l, s.vars)) (sym (append-nil s.events))
    ∙ sym (ap (completed_by s) held)
    ∙ h

reached : {s : System} (r : Reach s) → IsLinear s (order_of r)
unfolding IsLinear sequential order_of
reached start = refl
reached (later {s} r (call e)) = ap completed e ∙ with_call-completed s s.holder ∙ reached r
reached (later r (work w)) = Work-IsLinear (order_of r) w (reached r)

sequential-run :
    (envs : List Env) (past : List Answer) (es : List Event) (st : Provision)
    → (sequential envs (past, es, st)).1 ≡ es ++ (run envs st).0
unfolding sequential run
sequential-run [] past es st = sym (append-nil es)
sequential-run (env ∷ envs) past es st =
    let o = ensure_provisioning env st in
    sequential-run envs (past ++ o.answer ∷ []) (es ++ o.events) o.after
    ∙ append_assoc es o.events (run envs o.after).0

completed_by-events :
    (s : System) (h : Option (Env × Phase))
    → (rest : List Event) × ((completed_by s h).1 ≡ s.events ++ rest)
completed_by-events s none = ([], sym (append-nil s.events))
completed_by-events s (some (env, p)) = ((rest_of env p s.vars).events, refl)

applied-le :
    (es fs gs : List Event)
    → es ++ fs ≡ gs
    → length (applied_texts gs) ≤ 1
    → length (applied_texts es) ≤ 1
applied-le es fs gs e h = omega (
  arith,
  h,
  ap (λ l. length (applied_texts l)) e,
  ap length (applied_texts-append es fs),
  length-append (applied_texts es) (applied_texts fs),
)

run-applied : (envs : List Env) → length (applied_texts (run envs initial).0) ≤ 1
run-applied envs = ground (arith, run-once envs)

-- At every moment of any interleaving of calls, the answers, the effects on the database and the
-- package variables that are there as soon as the call that holds the mutex has returned are those of
-- the calls one after the other, in the order in which they took the mutex; and the script has been
-- executed with success at most once.
pub Reach-IsLinear :
    {s : System} (r : Reach s) → IsLinear s (order_of r) × (length (applied_texts s.events) ≤ 1)
unfolding IsLinear
Reach-IsLinear {s} r =
    let h = reached r in
    let (rest, e) = completed_by-events s s.holder in
    let all : s.events ++ rest ≡ (run (order_of r) initial).0 =
      sym e ∙ ap (λ (t : Trace). t.1) h ∙ sequential-run (order_of r) [] [] initial in
    (h, applied-le s.events rest (run (order_of r) initial).0 all (run-applied (order_of r)))

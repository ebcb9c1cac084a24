-- ===== src/Db/Provision/Calls/Progress.antt =====
-- Concurrent calls come to an end.
use frego_finance.Prelude.{
  ℕ, zero, suc, ◌+◌, ◌≤◌, ◌<◌, ◌≡◌, refl, ap, ◌∙◌, ◌⊎◌, inl, inr, Bool, true, false, Option, none,
  some, [], ◌∷◌, arith, nat_eq, Text, text_eq, length, length-append, Result, ok, err,
}
use Prim.Native.Nat.{◌*◌}
use frego_finance.Db.Provision.{Provision, ProvisionError, Env, load_once, script_of}
use frego_finance.Db.Provision.Calls.{
  Phase, locked, loading, marking, acquiring, executing, releasing, unlocking, advance,
  acquire_move, execute_move, with_script_phase, checked, System, is_unlocking, Work, lock, move,
  unlock,
}

-- The statements that a call still has before it returns, at most.
abbrev pub rank : Phase → ℕ
rank locked = 6
rank loading = 5
rank (acquiring script) = 4
rank (executing script) = 3
rank marking = 2
rank (releasing a) = 1
rank (unlocking a) = 0

abbrev pub busy : Option (Env × Phase) → ℕ
busy none = 0
busy (some (env, p)) = suc (rank p)

-- A bound on the steps that the calls of a system still make.
abbrev pub load : System → ℕ
load s = 8 * s.waiting + busy s.holder

abbrev pub held : Option (Env × Phase) → ℕ
held none = 0
held (some h) = 1

-- The calls that were answered, that wait, or that hold the mutex.
abbrev pub calls : System → ℕ
calls s = length s.answers + (s.waiting + held s.holder)

checked-rank : (b : Bool) → rank (checked b) < 6
checked-rank true = omega arith
checked-rank false = omega arith

script-rank : (r : Result ProvisionError Text) → rank (with_script_phase r) < 5
script-rank (ok script) = omega arith
script-rank (err e) = omega arith

acquire-rank :
    (st : Provision) (script : Text) (r : Result Text (Unit {0}))
    → rank (acquire_move st script r).phase < 4
acquire-rank st script (ok x) = omega arith
acquire-rank st script (err e) = omega arith

execute-rank :
    (st : Provision) (script : Text) (r : Result Text (Unit {0}))
    → rank (execute_move st script r).phase < 3
execute-rank st script (ok x) = omega arith
execute-rank st script (err e) = omega arith

advance-rank :
    (env : Env) (p : Phase) (st : Provision)
    → is_unlocking p ≡ false
    → rank (advance env p st).phase < rank p
unfolding advance
advance-rank env locked st h = checked-rank st.applied
advance-rank env loading st h =
    let st' = load_once env st in script-rank (script_of st' st'.load_err)
advance-rank env (acquiring script) st h = acquire-rank st script env.acquire
advance-rank env (executing script) st h = execute-rank st script (env.exec script)
advance-rank env marking st h = omega arith
advance-rank env (releasing a) st h = omega arith
advance-rank env (unlocking a) st h = absurd (ground arith)

Work-load : {s t : System} → Work s t → load t < load s
Work-load {s} (lock env n free some_wait e) = omega (arith, ap load e, ap busy free, some_wait)
Work-load {s} (move env p holds not_done e) =
    omega (arith, ap load e, ap busy holds, advance-rank env p s.vars not_done)
Work-load (unlock env a holds e) = omega (arith, ap load e, ap busy holds)

Work-calls : {s t : System} → Work s t → calls t ≡ calls s
Work-calls (lock env n free some_wait e) = omega (arith, ap calls e, ap held free, some_wait)
Work-calls {s} (move env p holds not_done e) = omega (arith, ap calls e, ap held holds)
Work-calls {s} (unlock env a holds e) =
    omega (arith, ap calls e, ap held holds, length-append s.answers (a ∷ []))

-- A number of steps of the calls that are there.
pub data Works (s : System) : ℕ → System → Type 0 where
  none_yet : Works s 0 s
  one_more : {n : ℕ} {t v : System} → Works s n t → Work t v → Works s (suc n) v

Works-load : {s t : System} {n : ℕ} → Works s n t → n + load t ≤ load s
Works-load none_yet = omega arith
Works-load (one_more ws w) = omega (arith, Works-load ws, Work-load w)

Works-calls : {s t : System} {n : ℕ} → Works s n t → calls t ≡ calls s
Works-calls none_yet = refl
Works-calls (one_more ws w) = Work-calls w ∙ Works-calls ws

-- Nothing is left to do: no call waits and none holds the mutex.
abbrev pub IsDone : System → Type 0
IsDone s = (s.waiting ≡ 0) × (s.holder ≡ none)

holder_works :
    (s : System) (env : Env) (p : Phase) → s.holder ≡ some (env, p) → (t : System) × Work s t
holder_works s env (unlocking a) h = (_, unlock env a h refl)
holder_works s env locked h = (_, move env locked h refl refl)
holder_works s env loading h = (_, move env loading h refl refl)
holder_works s env marking h = (_, move env marking h refl refl)
holder_works s env (acquiring x) h = (_, move env (acquiring x) h refl refl)
holder_works s env (executing x) h = (_, move env (executing x) h refl refl)
holder_works s env (releasing a) h = (_, move env (releasing a) h refl refl)

free_works :
    (env : Env) (s : System) (n : ℕ)
    → s.holder ≡ none
    → s.waiting ≡ n
    → IsDone s ⊎ ((t : System) × Work s t)
free_works env s zero h w = inl (w, h)
free_works env s (suc n) h w = inr (_, lock env n h w refl)

works_or_IsDone :
    (env : Env) (s : System) (o : Option (Env × Phase))
    → s.holder ≡ o
    → IsDone s ⊎ ((t : System) × Work s t)
works_or_IsDone env s none h = free_works env s s.waiting h refl
works_or_IsDone env s (some (env', p)) h = inr (holder_works s env' p h)

IsDone-answers : (s t : System) → IsDone t → calls t ≡ calls s → length t.answers ≡ calls s
IsDone-answers s t (w, h) e = omega (arith, w, ap held h, e)

-- From any state the calls that are there make at most eight steps for each call that waits and seven
-- for the one that holds the mutex, and they stop only when all of them have been answered: there is
-- no deadlock. A call that still waits may meet any files and any database.
pub Works-bounded :
    (env : Env) {s t : System} {n : ℕ}
    → Works s n t
    → (n ≤ load s) × (((t' : System) × Work t t') ⊎ (IsDone t × (length t.answers ≡ calls s)))
Works-bounded env {s} {t} ws = (omega (arith, Works-load ws), outcome)
  where
    outcome : ((t' : System) × Work t t') ⊎ (IsDone t × (length t.answers ≡ calls s))
    outcome = elim (works_or_IsDone env t t.holder refl) [
      | inl done ↦ inr (done, IsDone-answers s t done (Works-calls ws))
      | inr w ↦ inl w
    ]

-- The calls of `s` can be brought to their end.
abbrev pub IsDrained : System → Type 0
IsDrained s = (n : ℕ) × (t : System) × Works s n t × IsDone t × (length t.answers ≡ calls s)

drain_from :
    (env : Env) (fuel : ℕ) {s t : System} {n : ℕ} → Works s n t → load t ≤ fuel → IsDrained s
drain_from env zero {s} {t} {n} ws h = elim (works_or_IsDone env t t.holder refl) [
  | inl done ↦ (n, t, ws, done, IsDone-answers s t done (Works-calls ws))
  | inr (v, w) ↦ absurd (omega (arith, Work-load w))
]
drain_from env (suc fuel) {s} {t} {n} ws h = elim (works_or_IsDone env t t.holder refl) [
  | inl done ↦ (n, t, ws, done, IsDone-answers s t done (Works-calls ws))
  | inr (v, w) ↦ drain_from env fuel (one_more ws w) (omega (arith, Work-load w))
]

-- Whatever state the calls are in, they can go on until none waits and none holds the mutex, and
-- then each of them has its answer.
pub drained : (env : Env) (s : System) → IsDrained s
drained env s = drain_from env (load s) none_yet (omega arith)

-- ===== src/Main/Life/Ending.antt =====
-- How the life of the process ends: as main says, and soon after the server was asked to stop.
use frego_finance.Prelude.{
  ℕ, suc, ◌+◌, ◌≤◌, ◌<◌, ◌≡◌, refl, ap, ◌∙◌, ◌⊎◌, inl, inr, Bool, true, false, List, [], ◌∷◌, ◌++◌,
  arith, nat_eq, Text, text_eq, Result, ok, err,
}
use frego_finance.Server.Run.{Server, shutdown}
use frego_finance.Main.Start.{World, Service, server_of, Ended, serve_until}
use frego_finance.Main.Life
use frego_finance.Main.Life.{
  Phase, waiting, sleeping, closing_finance, closing_tenant, returned, exited, stopped, Life,
  is_running, Move, listens, listen_fails, accepts, answers, signals, wakes, drains, times_out,
  closes_finance, closes_tenant, Lives, moves,
}
use frego_finance.Main.Life.Phases.{IsSound, is_stopped, finance_at, tenant_at, trace_at}
use frego_finance.Main.Life.Safety.{Lives-IsSound}

abbrev pub code_of : Phase → ℕ
code_of exited = 1
code_of _ = 0

abbrev pub unless_open : {P : Type 0} → Bool → P → List P
unless_open true pool = []
unless_open false pool = pool ∷ []

module _ {E S P : Type 0} (w : World E S P) (srv : Service S P) where
  -- The exit code, and the pools that are closed, the finance pool first.
  abbrev pub ended_as : Life → Ended P
  ended_as l = record {
    code = code_of l.phase;
    closed =
        unless_open l.finance_open srv.finance_pool ++ unless_open l.tenant_open srv.tenant_pool;
  }

  abbrev pub EndsAs : Life → Type 0
  EndsAs l =
      (r : Result Text (Unit {0})) × (l.trace ≡ (shutdown (λ limit. r) (server_of w srv)).0)
      × (ended_as l ≡ serve_until w (λ limit. r) (ok srv))

  abbrev ended_at : Phase → Ended P
  ended_at p = record {
    code = code_of p;
    closed =
        unless_open (finance_at p) srv.finance_pool ++ unless_open (tenant_at p) srv.tenant_pool;
  }

  ended_as-ended_at :
      (l : Life)
      → l.finance_open ≡ finance_at l.phase
      → l.tenant_open ≡ tenant_at l.phase
      → ended_as l ≡ ended_at l.phase
  ended_as-ended_at l f t = rw (f, t)

  ends :
      (l : Life) (p : Phase)
      → IsSound (server_of w srv) l
      → l.phase ≡ p
      → is_running p ≡ false
      → EndsAs l
  unfolding shutdown
  ends l returned i h k = (
    ok tt,
    i.told ∙ ap (trace_at (server_of w srv)) h,
    ended_as-ended_at l i.finance i.tenant ∙ ap ended_at h,
  )
  ends l exited i h k = (
    err [],
    i.told ∙ ap (trace_at (server_of w srv)) h,
    ended_as-ended_at l i.finance i.tenant ∙ ap ended_at h,
  )
  ends l waiting i h k = absurd (ground arith)
  ends l sleeping i h k = absurd (ground arith)
  ends l Life.stopping i h k = absurd (ground arith)
  ends l closing_finance i h k = absurd (ground arith)
  ends l closing_tenant i h k = absurd (ground arith)

-- Whatever clients, the listener and the signal do, a process that has ended did what main is
-- modelled to do once its parts are made: Shutdown's steps are those of the function, and the exit
-- code and the closed pools are those of main, for some answer of the server's own Shutdown.
pub Lives-serve_until :
    {E S P : Type 0}
    → (w : World E S P) (srv : Service S P) {l : Life} → Lives (server_of w srv) l
    → is_running l.phase ≡ false
    → EndsAs w srv l
Lives-serve_until w srv {l} r h = ends w srv l l.phase (Lives-IsSound (server_of w srv) r) refl h

-- The steps that a process makes once the server was asked to stop, at most.
abbrev pub rank : Phase → ℕ
rank Life.stopping = 3
rank closing_finance = 2
rank closing_tenant = 1
rank _ = 0

abbrev pub load : Life → ℕ
load l = rank l.phase + l.at_work

-- A number of steps.
pub data Moves (s : Server) (l : Life) : ℕ → Life → Type 0 where
  no_move : Moves s l 0 l
  next_move : {n : ℕ} {m v : Life} → Moves s l n m → Move s m v → Moves s l (suc n) v

module _ (s : Server) where
  -- A step of a process that was asked to stop lowers its load, and leaves it asked to stop.
  Move-load :
      (l : Life) {m : Life}
      → is_stopped l.phase ≡ true
      → l.listener ≡ stopped
      → Move s l m
      → (load m < load l) × (is_stopped m.phase ≡ true)
  Move-load l h q (listens r k e) = absurd (cc (q, k))
  Move-load l h q (listen_fails r k e) = absurd (cc (q, k))
  Move-load l h q (accepts r k e) = absurd (cc (q, k))
  Move-load l h q (answers n r k e) =
      (omega (arith, ap load e, k), ap (λ x. is_stopped x.phase) e ∙ h)
  Move-load l h q (signals k e) = absurd (cc (ap is_stopped k, h))
  Move-load l h q (wakes k e) = absurd (cc (ap is_stopped k, h))
  Move-load l h q (drains k none_left e) =
      (omega (arith, ap load e, ap rank k), ap (λ x. is_stopped x.phase) e)
  Move-load l h q (times_out k e) =
      (omega (arith, ap load e, ap rank k), ap (λ x. is_stopped x.phase) e)
  Move-load l h q (closes_finance k e) =
      (omega (arith, ap load e, ap rank k), ap (λ x. is_stopped x.phase) e)
  Move-load l h q (closes_tenant k e) =
      (omega (arith, ap load e, ap rank k), ap (λ x. is_stopped x.phase) e)

  stopped_listener : (l : Life) → IsSound s l → is_stopped l.phase ≡ true → l.listener ≡ stopped
  stopped_listener l i h = elim i.silent [ inl e ↦ absurd (cc (e, h)) | inr e ↦ e ]

  Moves-load :
      {l m : Life} {n : ℕ}
      → Lives s l
      → is_stopped l.phase ≡ true
      → Moves s l n m
      → Lives s m × (is_stopped m.phase ≡ true) × (n + load m ≤ load l)
  Moves-load r h no_move = (r, h, omega arith)
  Moves-load r h (next_move {m} ms v) =
      let (rm, hm, b) = Moves-load r h ms in
      let (less, hv) = Move-load m hm (stopped_listener m (Lives-IsSound s rm) hm) v in
      (moves rm v, hv, omega (arith, b, less))

  next_or_ended :
      (l : Life) (p : Phase)
      → l.phase ≡ p
      → is_stopped p ≡ true
      → ((m : Life) × Move s l m) ⊎ (is_running l.phase ≡ false)
  next_or_ended l waiting e h = absurd (ground arith)
  next_or_ended l sleeping e h = absurd (ground arith)
  next_or_ended l Life.stopping e h = inl (_, times_out e refl)
  next_or_ended l closing_finance e h = inl (_, closes_finance e refl)
  next_or_ended l closing_tenant e h = inl (_, closes_tenant e refl)
  next_or_ended l returned e h = inr (ap is_running e)
  next_or_ended l exited e h = inr (ap is_running e)

-- Once the server was asked to stop, the process makes at most three steps more than it has requests
-- at work, and stops making them only when it has ended.
pub Moves-bounded :
    (s : Server) {l m : Life} {n : ℕ}
    → Lives s l
    → is_stopped l.phase ≡ true
    → Moves s l n m
    → (n ≤ 3 + l.at_work) × (((v : Life) × Move s m v) ⊎ (is_running m.phase ≡ false))
Moves-bounded s {l} {m} r h ms =
    let (rm, hm, b) = Moves-load s r h ms in
    (omega (arith, b, rank-le l.phase), next_or_ended s m m.phase refl hm)
  where
    rank-le : (p : Phase) → rank p ≤ 3
    rank-le waiting = omega arith
    rank-le sleeping = omega arith
    rank-le Life.stopping = omega arith
    rank-le closing_finance = omega arith
    rank-le closing_tenant = omega arith
    rank-le returned = omega arith
    rank-le exited = omega arith

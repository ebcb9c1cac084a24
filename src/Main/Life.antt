-- ===== src/Main/Life.antt =====
-- The life of the process that cmd/server/main.go starts, once its parts are made: the goroutine
-- that listens, the requests at work, the signal, and the end. Shutdown of net/http closes the
-- listener, and returns without an error once no request is at work, or with one when its time is up.
pub mod Phases
pub mod Safety
pub mod Ending
use frego_finance.Prelude.{ℕ, suc, ◌≡◌, Bool, true, false, List, [], ◌∷◌, ◌++◌, codes}
use frego_finance.Http.{info}
use frego_finance.Server.Run.{Server, Step, logged, slept, asked_to_stop}

-- Where main stands: it waits for the signal, sleeps in Shutdown, waits in the server's own Shutdown,
-- runs its deferred calls, has returned, or has exited with the code 1.
pub data Phase : Type 0 where
  waiting sleeping stopping closing_finance closing_tenant returned exited : Phase

-- The goroutine of Start: before it listens, while it does, after an error, and once it was stopped.
pub data Listener : Type 0 where
  starting listening failed stopped : Listener

-- The requests that were accepted and answered, the pools that are open, and what Shutdown has done.
pub record Life : Type 0 where
  pub phase : Phase
  pub listener : Listener
  pub accepted : ℕ
  pub at_work : ℕ
  pub answered : ℕ
  pub finance_open : Bool
  pub tenant_open : Bool
  pub signalled : Bool
  pub trace : List Step

abbrev pub begin : Life
begin = record {
  phase = waiting;
  listener = starting;
  accepted = 0;
  at_work = 0;
  answered = 0;
  finance_open = true;
  tenant_open = true;
  signalled = false;
  trace = [];
}

abbrev pub shutting_down : Step
shutting_down = logged (record { level = info; message = codes "shutting down http server" })

abbrev pub complete : Step
complete = logged (record { level = info; message = codes "http server shutdown complete" })

-- An accepted request.
abbrev pub with_request : Life → Life
with_request l = record l { accepted = suc l.accepted; at_work = suc l.at_work }

abbrev pub with_answer : Life → ℕ → Life
with_answer l n = record l { at_work = n; answered = suc l.answered }

abbrev pub with_signal : Life → Life
with_signal l = record l {
  phase = sleeping;
  signalled = true;
  trace = l.trace ++ shutting_down ∷ [];
}

abbrev pub with_stop : Server → Life → Life
with_stop s l = record l {
  phase = stopping;
  listener = stopped;
  trace = l.trace ++ (slept s.graceful_delay ∷ asked_to_stop 30000000000 ∷ []);
}

abbrev pub with_end : Life → Life
with_end l = record l { phase = closing_finance; trace = l.trace ++ complete ∷ [] }

abbrev pub is_running : Phase → Bool
is_running returned = false
is_running exited = false
is_running _ = true

-- One step of the process, of a client or of the system.
pub data Move (s : Server) (l m : Life) : Type 0 where
  listens :
      is_running l.phase ≡ true
      → l.listener ≡ starting
      → m ≡ record l { listener = listening }
      → Move s l m
  listen_fails :
      is_running l.phase ≡ true
      → l.listener ≡ starting
      → m ≡ record l { listener = failed }
      → Move s l m
  accepts : is_running l.phase ≡ true → l.listener ≡ listening → m ≡ with_request l → Move s l m
  answers :
      (n : ℕ) → is_running l.phase ≡ true → l.at_work ≡ suc n → m ≡ with_answer l n → Move s l m
  signals : l.phase ≡ waiting → m ≡ with_signal l → Move s l m
  wakes : l.phase ≡ sleeping → m ≡ with_stop s l → Move s l m
  drains : l.phase ≡ stopping → l.at_work ≡ 0 → m ≡ with_end l → Move s l m
  times_out : l.phase ≡ stopping → m ≡ record l { phase = exited } → Move s l m
  closes_finance :
      l.phase ≡ closing_finance
      → m ≡ record l { phase = closing_tenant; finance_open = false }
      → Move s l m
  closes_tenant :
      l.phase ≡ closing_tenant → m ≡ record l { phase = returned; tenant_open = false } → Move s l m

-- The lives of a process.
pub data Lives (s : Server) : Life → Type 0 where
  begins : Lives s begin
  moves : {l m : Life} → Lives s l → Move s l m → Lives s m

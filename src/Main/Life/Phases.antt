-- ===== src/Main/Life/Phases.antt =====
-- What the phase of main says of the rest of the process.
use frego_finance.Prelude.{◌+◌, ◌≡◌, ◌⊎◌, Bool, true, false, List, [], ◌∷◌, nat_eq, text_eq, ok}
use frego_finance.Server.Run.{Server, Step, after_stop, stopping}
use frego_finance.Main.Life
use frego_finance.Main.Life.{
  Phase, waiting, sleeping, closing_finance, closing_tenant, returned, exited, listening, failed,
  stopped, Life, begin, shutting_down, complete, with_request, with_answer, with_signal, with_stop,
  with_end, is_running, Move, listens, listen_fails, accepts, answers, signals, wakes, drains,
  times_out, closes_finance, closes_tenant, Lives, begins, moves,
}

abbrev pub has_signal : Phase → Bool
has_signal waiting = false
has_signal _ = true

abbrev pub finance_at : Phase → Bool
finance_at closing_tenant = false
finance_at returned = false
finance_at _ = true

abbrev pub tenant_at : Phase → Bool
tenant_at returned = false
tenant_at _ = true

abbrev pub is_stopped : Phase → Bool
is_stopped waiting = false
is_stopped sleeping = false
is_stopped _ = true

-- Shutdown has returned without an error.
abbrev pub is_drained : Phase → Bool
is_drained closing_finance = true
is_drained closing_tenant = true
is_drained returned = true
is_drained _ = false

-- What Shutdown has done.
abbrev pub trace_at : Server → Phase → List Step
trace_at s waiting = []
trace_at s sleeping = shutting_down ∷ []
trace_at s Life.stopping = stopping s
trace_at s closing_finance = (after_stop s (ok tt)).0
trace_at s closing_tenant = (after_stop s (ok tt)).0
trace_at s returned = (after_stop s (ok tt)).0
trace_at s exited = stopping s

-- Every accepted request is at work or was answered; the phase of main says whether the signal came,
-- which pools are open and what Shutdown has done; nothing listens once the server was asked to stop,
-- and nothing is at work once it has stopped.
pub record IsSound (s : Server) (l : Life) : Type 0 where
  pub balanced : l.accepted ≡ l.at_work + l.answered
  pub signal : l.signalled ≡ has_signal l.phase
  pub finance : l.finance_open ≡ finance_at l.phase
  pub tenant : l.tenant_open ≡ tenant_at l.phase
  pub told : l.trace ≡ trace_at s l.phase
  pub silent : (is_stopped l.phase ≡ false) ⊎ (l.listener ≡ stopped)
  pub drained : (is_drained l.phase ≡ false) ⊎ (l.at_work ≡ 0)

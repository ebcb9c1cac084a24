-- ===== src/Main/Life/Safety.antt =====
-- What holds at every moment of the life of the process.
use frego_finance.Prelude.{
  ℕ, suc, ◌≡◌, refl, sym, ap, ◌∙◌, ◌≢◌, inl, inr, true, false, [], ◌∷◌, ◌++◌, arith, nat_eq,
  text_eq,
}
use mathlib.Core.Path.{subst}
use frego_finance.Server.Run.{Server, slept, asked_to_stop}
use frego_finance.Main.Life
use frego_finance.Main.Life.{
  Phase, waiting, sleeping, closing_finance, closing_tenant, returned, exited, listening, failed,
  stopped, Life, begin, shutting_down, complete, with_request, with_answer, with_signal, with_stop,
  with_end, is_running, Move, listens, listen_fails, accepts, answers, signals, wakes, drains,
  times_out, closes_finance, closes_tenant, Lives, begins, moves,
}
use frego_finance.Main.Life.Phases.{
  has_signal, finance_at, tenant_at, is_stopped, is_drained, trace_at, IsSound,
}

begin-IsSound : (s : Server) → IsSound s begin
begin-IsSound s = record {
  balanced = refl;
  signal = refl;
  finance = refl;
  tenant = refl;
  told = refl;
  silent = inl refl;
  drained = inl refl;
}

not_drained : (p : Phase) → is_stopped p ≡ false → is_drained p ≡ false
not_drained waiting h = refl
not_drained sleeping h = refl
not_drained Life.stopping h = refl
not_drained closing_finance h = absurd (ground arith)
not_drained closing_tenant h = absurd (ground arith)
not_drained returned h = absurd (ground arith)
not_drained exited h = refl

module _ (s : Server) (l : Life) (i : IsSound s l) where
  -- Nothing that the listener and the requests do changes what the phase says.
  listener-IsSound :
      (x : Life.Listener) → (is_stopped l.phase ≡ false) → IsSound s (record l { listener = x })
  listener-IsSound x h = record {
    balanced = i.balanced;
    signal = i.signal;
    finance = i.finance;
    tenant = i.tenant;
    told = i.told;
    silent = inl h;
    drained = i.drained;
  }

  request-IsSound : is_stopped l.phase ≡ false → IsSound s (with_request l)
  request-IsSound h = record {
    balanced = omega (arith, i.balanced);
    signal = i.signal;
    finance = i.finance;
    tenant = i.tenant;
    told = i.told;
    silent = i.silent;
    drained = inl (not_drained l.phase h);
  }

  answer-IsSound : (n : ℕ) → l.at_work ≡ suc n → IsSound s (with_answer l n)
  answer-IsSound n h = record {
    balanced = omega (arith, i.balanced);
    signal = i.signal;
    finance = i.finance;
    tenant = i.tenant;
    told = i.told;
    silent = i.silent;
    drained = elim i.drained [ inl e ↦ inl e | inr e ↦ absurd (omega (arith, e, h)) ];
  }

  open_listener : l.listener ≢ stopped → is_stopped l.phase ≡ false
  open_listener h = elim i.silent [ inl e ↦ e | inr e ↦ absurd (h e) ]

  -- The next phase, where it does not touch the pools.
  to_sleeping : l.phase ≡ waiting → IsSound s (with_signal l)
  to_sleeping h = record {
    balanced = i.balanced;
    signal = refl;
    finance = i.finance ∙ ap finance_at h;
    tenant = i.tenant ∙ ap tenant_at h;
    told = ap (λ t. t ++ shutting_down ∷ []) (i.told ∙ ap (trace_at s) h);
    silent = inl refl;
    drained = inl refl;
  }

  to_stopping : l.phase ≡ sleeping → IsSound s (with_stop s l)
  to_stopping h = record {
    balanced = i.balanced;
    signal = i.signal ∙ ap has_signal h;
    finance = i.finance ∙ ap finance_at h;
    tenant = i.tenant ∙ ap tenant_at h;
    told =
        ap (λ t. t ++ (slept s.graceful_delay ∷ asked_to_stop 30000000000 ∷ []))
          (i.told ∙ ap (trace_at s) h);
    silent = inr refl;
    drained = inl refl;
  }

  now_stopped : (p : Phase) → l.phase ≡ p → is_stopped p ≡ true → l.listener ≡ stopped
  now_stopped p h k = elim i.silent [ inl e ↦ absurd (cc (ap is_stopped h, e, k)) | inr e ↦ e ]

  now_drained : (p : Phase) → l.phase ≡ p → is_drained p ≡ true → l.at_work ≡ 0
  now_drained p h k = elim i.drained [ inl e ↦ absurd (cc (ap is_drained h, e, k)) | inr e ↦ e ]

  to_closing : l.phase ≡ Life.stopping → l.at_work ≡ 0 → IsSound s (with_end l)
  to_closing h none_left = record {
    balanced = i.balanced;
    signal = i.signal ∙ ap has_signal h;
    finance = i.finance ∙ ap finance_at h;
    tenant = i.tenant ∙ ap tenant_at h;
    told = ap (λ t. t ++ complete ∷ []) (i.told ∙ ap (trace_at s) h);
    silent = inr (now_stopped Life.stopping h refl);
    drained = inr none_left;
  }

  to_timed_out : l.phase ≡ Life.stopping → IsSound s (record l { phase = exited })
  to_timed_out h = record {
    balanced = i.balanced;
    signal = i.signal ∙ ap has_signal h;
    finance = i.finance ∙ ap finance_at h;
    tenant = i.tenant ∙ ap tenant_at h;
    told = i.told ∙ ap (trace_at s) h;
    silent = inr (now_stopped Life.stopping h refl);
    drained = inl refl;
  }

  finance_closed :
      l.phase ≡ closing_finance
      → IsSound s (record l { phase = closing_tenant; finance_open = false })
  finance_closed h = record {
    balanced = i.balanced;
    signal = i.signal ∙ ap has_signal h;
    finance = refl;
    tenant = i.tenant ∙ ap tenant_at h;
    told = i.told ∙ ap (trace_at s) h;
    silent = inr (now_stopped closing_finance h refl);
    drained = inr (now_drained closing_finance h refl);
  }

  tenant_closed :
      l.phase ≡ closing_tenant → IsSound s (record l { phase = returned; tenant_open = false })
  tenant_closed h = record {
    balanced = i.balanced;
    signal = i.signal ∙ ap has_signal h;
    finance = i.finance ∙ ap finance_at h;
    tenant = refl;
    told = i.told ∙ ap (trace_at s) h;
    silent = inr (now_stopped closing_tenant h refl);
    drained = inr (now_drained closing_tenant h refl);
  }

  kept : {m : Life} → Move s l m → IsSound s m
  kept (listens r h e) =
      subst (IsSound s) (sym e) (listener-IsSound listening (open_listener (λ k. cc (h, k))))
  kept (listen_fails r h e) =
      subst (IsSound s) (sym e) (listener-IsSound failed (open_listener (λ k. cc (h, k))))
  kept (accepts r h e) =
      subst (IsSound s) (sym e) (request-IsSound (open_listener (λ k. cc (h, k))))
  kept (answers n r h e) = subst (IsSound s) (sym e) (answer-IsSound n h)
  kept (signals h e) = subst (IsSound s) (sym e) (to_sleeping h)
  kept (wakes h e) = subst (IsSound s) (sym e) (to_stopping h)
  kept (drains h none_left e) = subst (IsSound s) (sym e) (to_closing h none_left)
  kept (times_out h e) = subst (IsSound s) (sym e) (to_timed_out h)
  kept (closes_finance h e) = subst (IsSound s) (sym e) (finance_closed h)
  kept (closes_tenant h e) = subst (IsSound s) (sym e) (tenant_closed h)

-- At every moment of the life of the process: each accepted request is at work or was answered; main
-- has left its wait only if the signal came, also where the server could not listen; both pools are
-- open until Shutdown has returned without an error, and then the finance pool is closed first, and
-- neither pool is closed if the process exits with the code 1; from the moment the server was asked to
-- stop nothing listens, and nothing is at work from the moment it has stopped without an error; and
-- Shutdown has done the steps that are due.
pub Lives-IsSound : (s : Server) {l : Life} → Lives s l → IsSound s l
Lives-IsSound s begins = begin-IsSound s
Lives-IsSound s (moves {l} r move) = kept s l (Lives-IsSound s r) move

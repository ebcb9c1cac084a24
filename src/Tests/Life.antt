-- ===== src/Tests/Life.antt =====
-- Examples for the life of the process and for what its loggers write.
use frego_finance.Prelude.{
  ℕ, ◌+◌, ◌≤◌, ◌≡◌, refl, ◌⊎◌, false, none, some, [], if◌then◌else◌, nat_eq, text_eq, codes,
}
use frego_finance.Slog.{debug, LogRecord, reaches}
use frego_finance.Http.{Handler}
use frego_finance.Http
use frego_finance.Logging.{Frame, new, min_level, log, from_context, inject_middleware}
use frego_finance.Logging.Records.{written_attributes, inject_middleware-log}
use frego_finance.Context.{Context}
use frego_finance.Server.Run.{Server}
use frego_finance.Main.Start.{server_of}
use frego_finance.Main.Life.{
  Life, begin, Move, Lives, begins, moves, listening, with_request, with_signal, with_stop,
  with_end, listens, accepts, answers, signals, wakes, drains, closes_finance, closes_tenant,
  with_answer, closing_tenant, returned, is_running,
}
use frego_finance.Main.Life.Phases.{IsSound}
use frego_finance.Main.Life.Safety.{Lives-IsSound}
use frego_finance.Main.Life.Ending.{
  EndsAs, Lives-serve_until, Moves, no_move, next_move, Moves-bounded,
}
use frego_finance.Tests.Samples.{ascii, request}
use frego_finance.Tests.Api.{no_logger}
use frego_finance.Tests.Start.{plain, service}

abbrev server : Server
server = server_of plain service

-- One request is accepted before the signal and answered while the server stops.
abbrev busy : Life
busy = with_request (record begin { listener = listening })

abbrev asked : Life
asked = with_stop server (with_signal busy)

abbrev drained : Life
drained = with_end (with_answer asked 0)

abbrev finance_closed : Life
finance_closed = record drained { phase = closing_tenant; finance_open = false }

abbrev done : Life
done = record finance_closed { phase = returned; tenant_open = false }

asked-Lives : Lives server asked
asked-Lives =
    moves
      (moves (moves (moves begins (listens refl refl refl)) (accepts refl refl refl))
        (signals refl refl))
      (wakes refl refl)

asked-Moves : Moves server asked 2 drained
asked-Moves = next_move (next_move no_move (answers 0 refl refl refl)) (drains refl refl refl)

done-Lives : Lives server done
done-Lives =
    moves
      (moves (moves (moves asked-Lives (answers 0 refl refl refl)) (drains refl refl refl))
        (closes_finance refl refl))
      (closes_tenant refl refl)

Lives-IsSound_example : IsSound server done
Lives-IsSound_example = Lives-IsSound server done-Lives

Lives-serve_until_example : EndsAs plain service done
Lives-serve_until_example = Lives-serve_until plain service done-Lives refl

Moves-bounded_example :
    (2 ≤ 3 + asked.at_work)
    × (((v : Life) × Move server drained v) ⊎ (is_running drained.phase ≡ false))
Moves-bounded_example = Moves-bounded server asked-Lives refl asked-Moves

abbrev frame : ℕ → Frame
frame pc = record { function = codes "main.main"; file = codes "main.go"; line = 41 }

abbrev debug_record : LogRecord
debug_record = record { level = debug; message = codes "listed"; pc = 7; attributes = [] }

inject_middleware-log_example :
    (ctx : Context) × ((next : Handler)
      → inject_middleware (λ c. codes "r1") (new ascii (codes "development")) next request
        ≡ next (Http.with_context request ctx))
    × (log frame (from_context no_logger ctx) debug_record ≡ (
        if reaches (min_level ascii (codes "development")) debug
        then some (record debug_record {
          attributes = written_attributes frame (codes "r1") debug_record;
        })
        else none))
inject_middleware-log_example =
    inject_middleware-log ascii frame (codes "development") (λ c. codes "r1") no_logger request
      debug_record

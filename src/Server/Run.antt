-- ===== src/Server/Run.antt =====
-- The life of the HTTP server: New, Start and Shutdown of internal/server/server.go. Durations are
-- in nanoseconds.
use frego_finance.Prelude.{ℕ, List, [], ◌∷◌, ◌++◌, nat_eq, Text, text_eq, codes, Result, ok, err}
use frego_finance.Http.{Handler, Line, info}

pub record HttpServer : Type 0 where
  pub addr : Text
  pub handler : Handler
  pub read_timeout : ℕ
  pub write_timeout : ℕ
  pub idle_timeout : ℕ
  pub read_header_timeout : ℕ

pub record Server : Type 0 where
  pub address : Text
  pub server : HttpServer
  pub graceful_delay : ℕ

unfoldable pub new : Text → Handler → (graceful_delay : ℕ) → Server
new address handler graceful_delay = record {
  address = address;
  graceful_delay = graceful_delay;
  server = record {
    addr = address;
    handler = handler;
    read_timeout = 30000000000;
    write_timeout = 30000000000;
    idle_timeout = 120000000000;
    read_header_timeout = 10000000000;
  };
}

-- How ListenAndServe ends.
pub data ServeEnd : Type 0 where
  no_error server_closed : ServeEnd
  failed : Text → ServeEnd

pub data ServerError : Type 0 where
  listen_and_serve shutdown_failed : Text → ServerError

unfoldable pub start : ServeEnd → Result ServerError (Unit {0})
start no_error = ok tt
start server_closed = ok tt
start (failed e) = err (listen_and_serve e)

-- What Shutdown does, in order: it waits before it asks the server to stop within a time limit.
pub data Step : Type 0 where
  logged : Line → Step
  slept : ℕ → Step
  asked_to_stop : (limit : ℕ) → Step

abbrev pub stopping : Server → List Step
stopping s =
    logged (record { level = info; message = codes "shutting down http server" })
    ∷ slept s.graceful_delay
    ∷ asked_to_stop 30000000000
    ∷ []

abbrev pub after_stop : Server → Result Text (Unit {0}) → List Step × Result ServerError (Unit {0})
after_stop s (err e) = (stopping s, err (shutdown_failed e))
after_stop s (ok _) = (
  stopping s
      ++ (logged (record { level = info; message = codes "http server shutdown complete" }) ∷ []),
  ok tt,
)

-- `stop` is what the server's own Shutdown returns within the limit.
unfoldable pub shutdown :
    (stop : ℕ → Result Text (Unit {0})) → Server → List Step × Result ServerError (Unit {0})
shutdown stop s = after_stop s (stop 30000000000)

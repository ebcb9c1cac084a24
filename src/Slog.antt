-- ===== src/Slog.antt =====
-- What the service uses of Go's log/slog, with the handler of internal/logging/logger.go: loggers,
-- their levels and their handlers.
use frego_finance.Prelude.{ℕ, Bool, true, false, List, ◌++◌, Text}

pub data Level : Type 0 where
  debug info warn error : Level

pub data MinLevel : Type 0 where
  debug_level info_level : MinLevel

-- A slog.Handler: the JSON handler with the attributes that it was given, the callerHandler that has
-- another one embedded, or that of slog.Default.
pub data LogHandler : Type 0 where
  json_handler :
      (level : MinLevel) (add_source : Bool) (attributes : List (Text × Text)) → LogHandler
  caller_handler : LogHandler → LogHandler
  default_handler : (attributes : List (Text × Text)) → LogHandler

-- A *slog.Logger
pub record Logger : Type 0 where
  pub handler : LogHandler

-- WithAttrs. That of callerHandler is its embedded handler's own, so what it gives is no callerHandler.
unfoldable pub with_attrs : LogHandler → List (Text × Text) → LogHandler
with_attrs (json_handler level add_source old) new = json_handler level add_source (old ++ new)
with_attrs (caller_handler h) new = with_attrs h new
with_attrs (default_handler old) new = default_handler (old ++ new)

abbrev pub reaches : MinLevel → Level → Bool
reaches debug_level level = true
reaches info_level debug = false
reaches info_level info = true
reaches info_level warn = true
reaches info_level error = true

-- Enabled. That of callerHandler is its embedded handler's own.
unfoldable pub enabled : LogHandler → Level → Bool
enabled (json_handler min add_source attributes) level = reaches min level
enabled (caller_handler h) level = enabled h level
enabled (default_handler attributes) level = reaches info_level level

pub record LogRecord : Type 0 where
  pub level : Level
  pub message : Text
  pub pc : ℕ
  pub attributes : List (Text × Text)

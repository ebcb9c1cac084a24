-- ===== src/Logging.antt =====
-- Package internal/logging.
pub mod Laws
pub mod Records
use frego_finance.Prelude.{
  ℕ, zero, suc, true, not, Option, none, some, List, [], ◌∷◌, ◌++◌, if◌then◌else◌, ◌==◌, nat_eq,
  Text, text_eq, codes,
}
use frego_finance.Strings.{Unicode, equal_fold, sprintf_padded}
use frego_finance.Context.{Context, Logger, Item, logger_item, logger_key, with_value, value}
use frego_finance.Slog.{
  MinLevel, debug_level, info_level, LogHandler, json_handler, caller_handler, default_handler,
  LogRecord, with_attrs, enabled,
}
use frego_finance.Http.{Middleware}
use frego_finance.Http

-- The lowest level that the logger of New writes.
unfoldable pub min_level : Unicode → (env : Text) → MinLevel
unfolding equal_fold
min_level u env = if equal_fold u env (codes "development") then debug_level else info_level

unfoldable pub new : Unicode → (env : Text) → Logger
unfolding min_level
new u env = record { handler = caller_handler (json_handler (min_level u env) true []) }

-- What runtime.CallersFrames tells of a program counter.
pub record Frame : Type 0 where
  pub function : Text
  pub file : Text
  pub line : ℕ

abbrev pub unless_empty : Text → Text × Text → List (Text × Text)
unless_empty [] attribute = []
unless_empty (c ∷ s) attribute = attribute ∷ []

-- The attributes that callerHandler.Handle adds to a record with this program counter.
unfoldable pub caller_attributes : (ℕ → Frame) → (pc : ℕ) → List (Text × Text)
unfolding sprintf_padded
caller_attributes frame_of zero = []
caller_attributes frame_of (suc n) =
    let frame = frame_of (suc n) in
    unless_empty frame.function (codes "caller", frame.function)
    ++ unless_empty frame.file
        (codes "file", frame.file ++ (codes ":" ++ sprintf_padded 0 frame.line))

-- Handle: the record that is written. The first attributes of a line are those of the handler.
unfoldable pub handle : (ℕ → Frame) → LogHandler → LogRecord → LogRecord
unfolding caller_attributes
handle frame_of (json_handler level add_source attributes) r = record r {
  attributes = attributes ++ r.attributes;
}
handle frame_of (caller_handler h) r =
    handle frame_of h (record r { attributes = r.attributes ++ caller_attributes frame_of r.pc })
handle frame_of (default_handler attributes) r = record r {
  attributes = attributes ++ r.attributes;
}

-- A call of a logger: the record that its handler writes, if the level is enabled.
unfoldable pub log : (ℕ → Frame) → Logger → LogRecord → Option LogRecord
unfolding handle enabled
log frame_of logger r =
    if enabled logger.handler r.level then some (handle frame_of logger.handler r) else none

unfoldable pub with_context : Context → Logger → Context
with_context ctx logger = with_value ctx logger_key (logger_item logger)

abbrev pub as_logger : Logger → Option Item → Logger
as_logger default (some (logger_item logger)) = logger
as_logger default _ = default

-- `default` is slog.Default().
unfoldable pub from_context : Logger → Context → Logger
unfolding value
from_context default ctx = as_logger default (value ctx logger_key)

-- With of a logger
unfoldable pub with_attribute : Logger → Text × Text → Logger
unfolding with_attrs
with_attribute logger attribute = record { handler = with_attrs logger.handler (attribute ∷ []) }

unfoldable pub enriched : Logger → (req_id : Text) → Logger
unfolding with_attribute
enriched logger req_id =
    if not (req_id == []) then with_attribute logger (codes "request_id", req_id) else logger

-- `req_id` is chi's GetReqID.
unfoldable pub inject_middleware : (req_id : Context → Text) → Logger → Middleware
unfolding with_context enriched
inject_middleware req_id logger next r =
    next (Http.with_context r (with_context r.context (enriched logger (req_id r.context))))

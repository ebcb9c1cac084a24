-- ===== src/Logging/Records.antt =====
-- What the loggers of the service write.
use frego_finance.Prelude.{
  ℕ, ◌≡◌, refl, none, some, List, [], ◌∷◌, ◌++◌, if◌then◌else◌, nat_eq, Text, text_beq, text_eq,
  codes,
}
use frego_finance.Strings.{Unicode}
use frego_finance.Slog.{Logger, with_attrs, reaches, enabled, LogRecord}
use frego_finance.Context.{Context, same_key, value}
use frego_finance.Http.{Request, Handler}
use frego_finance.Http
use frego_finance.Logging.{
  Frame, min_level, new, caller_attributes, handle, log, with_attribute, enriched, with_context,
  from_context, inject_middleware,
}

-- What a record has when it is written by the logger that a request with this id finds.
abbrev pub written_attributes : (ℕ → Frame) → (req_id : Text) → LogRecord → List (Text × Text)
written_attributes frame_of [] r = r.attributes ++ caller_attributes frame_of r.pc
written_attributes frame_of (c ∷ id) r = (codes "request_id", c ∷ id) ∷ r.attributes

module _ (u : Unicode) (frame_of : ℕ → Frame) (env : Text) where
  log-enriched :
      (id : Text) (r : LogRecord)
      → log frame_of (enriched (new u env) id) r ≡ (
          if reaches (min_level u env) r.level
          then some (record r { attributes = written_attributes frame_of id r })
          else none)
  unfolding log enriched new with_attribute with_attrs handle enabled text_beq
  log-enriched [] r = refl
  log-enriched (c ∷ id) r = refl

-- The logger that a handler finds behind the middleware, made of the service's own logger, writes a
-- record exactly when its level is at least the one of the environment. If the request has an id,
-- its attributes start with the id and lack the caller and the file, which the logger adds to a
-- record only where there is no id.
pub inject_middleware-log :
    (u : Unicode) (frame_of : ℕ → Frame) (env : Text) (req_id : Context → Text) (default : Logger)
    (r : Request) (rec : LogRecord)
    → (ctx : Context) × ((next : Handler)
        → inject_middleware req_id (new u env) next r ≡ next (Http.with_context r ctx))
      × (log frame_of (from_context default ctx) rec ≡ (
          if reaches (min_level u env) rec.level
          then some (record rec { attributes = written_attributes frame_of (req_id r.context) rec })
          else none))
unfolding inject_middleware from_context with_context value same_key
inject_middleware-log u frame_of env req_id default r rec = (
  with_context r.context (enriched (new u env) (req_id r.context)),
  (λ next. refl),
  log-enriched u frame_of env (req_id r.context) rec,
)

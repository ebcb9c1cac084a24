-- ===== src/Logging/Laws.antt =====
-- Which logger the handlers find.
use frego_finance.Prelude.{
  ◌≡◌, refl, ◌⊎◌, inl, inr, [], Bool-cases, ◌==◌, nat_eq, Text, text_beq_iff, text_eq, codes,
}
use frego_finance.Context.{Context, Logger, same_key, value}
use frego_finance.Http.{Request, Handler, Served}
use frego_finance.Http
use frego_finance.Common.Principal.{principal_from_context}
use frego_finance.Logging.{enriched, inject_middleware, from_context, with_context, with_attribute}

enriched_cases :
    (logger : Logger) (id : Text)
    → (id ≡ []) ⊎ (enriched logger id ≡ with_attribute logger (codes "request_id", id))
unfolding enriched
enriched_cases logger id = elim (Bool-cases (id == [])) [
  | inl e ↦ inl ((text_beq_iff id []).0 e)
  | inr e ↦ inr (rw e)
]

-- The handler behind the middleware is called with a context in which it finds the logger, with the
-- request's id as one more attribute exactly where there is an id, and the principal that was there
-- before.
pub inject_middleware-from_context :
    (req_id : Context → Text) (default logger : Logger) (r : Request)
    → (ctx : Context) × ((next : Handler)
        → inject_middleware req_id logger next r ≡ next (Http.with_context r ctx))
      × (from_context default ctx ≡ enriched logger (req_id r.context))
      × ((req_id r.context ≡ [])
          ⊎ (from_context default ctx
              ≡ with_attribute logger (codes "request_id", req_id r.context)))
      × (principal_from_context ctx ≡ principal_from_context r.context)
unfolding inject_middleware from_context with_context value same_key principal_from_context
inject_middleware-from_context req_id default logger r = (
  with_context r.context (enriched logger (req_id r.context)),
  (λ next. refl),
  refl,
  enriched_cases logger (req_id r.context),
  refl,
)

-- ===== src/Api/Service/Contexts.antt =====
-- What an implementation of the API finds in its context.
use frego_finance.Prelude.{
  ◌≡◌, refl, ◌⊎◌, inl, inr, true, false, some, [], arith, if◌then◌else◌, nat_eq, Text, text_beq,
  text_eq, codes, Result, ok, err,
}
use frego_finance.Context.{Context, Logger, named, texts_item, value, same_key, with_value}
use frego_finance.Common.Principal.{principal_from_context}
use frego_finance.Server.TenantMiddleware.{get_tenant_id}
use frego_finance.Http.{Request, Response, Handler, http_error}
use frego_finance.Logging.{inject_middleware, from_context, enriched, with_context}
use frego_finance.Api.Errors.{ParamError}
use frego_finance.Api.Writer.{
  Writer, finish, fresh, write_error, write_header, write, set_header, set_in,
}
use frego_finance.Api.Strict.{
  StrictServerInterface, new_strict_handler, wrap_strict, decoded, default_options,
  strict_health_check, strict_list_invoices, strict_create_invoice, strict_get_invoice,
  strict_list_receipts, strict_create_receipt, strict_provision_tenant,
}
use frego_finance.Api.Wrapper.{
  wrap, with_params, list_invoices_params, invoice_id_param, provision_tenant_params,
  wrapped_health_check, wrapped_list_invoices, wrapped_create_invoice, wrapped_get_invoice,
  wrapped_list_receipts, wrapped_create_receipt, wrapped_provision_tenant,
}
use frego_finance.Api.Routes.{wrapper_of}
use frego_finance.Api.Service.{
  Setup, Endpoint, health_check, list_invoices, create_invoice, get_invoice, list_receipts,
  create_receipt, provision_tenant, served_by, readable, is_ok, is_secured, server_of,
  server_options,
}

-- An implementation whose operations all fail with a text made from their context, which shows in
-- the response what it found there.
unfoldable pub reporting : (Context → Text) → StrictServerInterface
reporting f = record {
  health_check = λ ctx request. err (f ctx);
  list_invoices = λ ctx request. err (f ctx);
  create_invoice = λ ctx request. err (f ctx);
  get_invoice = λ ctx request. err (f ctx);
  list_receipts = λ ctx request. err (f ctx);
  create_receipt = λ ctx request. err (f ctx);
  provision_tenant = λ ctx request. err (f ctx);
}

-- The context with the scopes where the operation is secured, and with the request's logger.
abbrev pub scoped : Endpoint → Context → Context
scoped e ctx =
    if is_secured e then with_value ctx (named (codes "BearerAuth.Scopes")) (texts_item []) else ctx

abbrev pub logger_of : Setup → Endpoint → Context → Logger
logger_of s e ctx = enriched s.logger (s.req_id (scoped e ctx))

abbrev pub seen : Setup → Endpoint → Request → Context
seen s e r = with_context (scoped e r.context) (logger_of s e r.context)

pub with_params_readable :
    {A : Type 0} (s : Setup) (ssi : StrictServerInterface) (res : Result ParamError A)
    (next : A → Handler) (r : Request) (x : Response)
    → is_ok res ≡ true
    → ((a : A) → (next a r).response ≡ x)
    → (with_params s.binder (wrapper_of (server_of s ssi) (server_options s)) res next r).response
      ≡ x
with_params_readable s ssi (ok a) next r x h k = k a
with_params_readable s ssi (err e) next r x h k = absurd (ground arith)

pub decoded_readable :
    {B : Type 0} (r : Request) (res : Result Text B) (next : B → Writer → Writer) (x : Response)
    → is_ok res ≡ true
    → ((b : B) → finish (next b fresh) ≡ x)
    → finish (decoded default_options r res next fresh) ≡ x
decoded_readable r (ok b) next x h k = k b
decoded_readable r (err e) next x h k = absurd (ground arith)

reported :
    (s : Setup) (f : Context → Text) (e : Endpoint) (r : Request)
    → readable s e r ≡ true
    → (served_by s (reporting f) e r).response ≡ http_error (f (seen s e r)) 500
unfolding served_by wrapped_health_check wrapped_list_invoices wrapped_create_invoice
    wrapped_get_invoice wrapped_list_receipts wrapped_create_receipt wrapped_provision_tenant
    strict_health_check strict_list_invoices strict_create_invoice strict_get_invoice
    strict_list_receipts strict_create_receipt strict_provision_tenant reporting new_strict_handler
    wrap wrap_strict inject_middleware finish write_error write_header write set_header set_in
    text_beq
reported s f health_check r h = refl
reported s f list_invoices r h =
    with_params_readable s (reporting f) (list_invoices_params s.binder r.query) _ _ _ h λ p. refl
reported s f create_invoice r h = decoded_readable r (s.json.decode_invoice r.body) _ _ h λ b. refl
reported s f get_invoice r h =
    with_params_readable s (reporting f) (invoice_id_param s.binder r) _ _ _ h λ p. refl
reported s f list_receipts r h = refl
reported s f create_receipt r h = decoded_readable r (s.json.decode_receipt r.body) _ _ h λ b. refl
reported s f provision_tenant r h =
    with_params_readable s (reporting f) (provision_tenant_params s.binder r) _ _ _ (ground arith)
      λ p. decoded_readable r (s.json.decode_provision r.body) _ _ (ground arith) λ b. refl

module _ (s : Setup) where
  seen-values :
      (default : Logger) (e : Endpoint) (r : Request)
      → (principal_from_context (seen s e r) ≡ principal_from_context r.context)
        × (get_tenant_id (seen s e r) ≡ get_tenant_id r.context)
        × (from_context default (seen s e r) ≡ logger_of s e r.context)
        × ((is_secured e ≡ false)
            ⊎ (value (seen s e r) (named (codes "BearerAuth.Scopes")) ≡ some (texts_item [])))
  unfolding principal_from_context get_tenant_id from_context with_context value same_key text_beq
  seen-values default health_check r = (refl, refl, refl, inl refl)
  seen-values default provision_tenant r = (refl, refl, refl, inl refl)
  seen-values default list_invoices r = (refl, refl, refl, inr refl)
  seen-values default create_invoice r = (refl, refl, refl, inr refl)
  seen-values default get_invoice r = (refl, refl, refl, inr refl)
  seen-values default list_receipts r = (refl, refl, refl, inr refl)
  seen-values default create_receipt r = (refl, refl, refl, inr refl)

-- An implementation of any operation, called by a request whose parameters and body can be read,
-- finds in its context the principal and the tenant that the request's context holds, the service's
-- logger with the request's id if there is one, and the scopes if the document secures the
-- operation. What it finds is told from its error, which is answered with 500.
pub served_by-context :
    (s : Setup) (f : Context → Text) (default : Logger) (e : Endpoint) (r : Request)
    → readable s e r ≡ true
    → (ctx : Context) × ((served_by s (reporting f) e r).response ≡ http_error (f ctx) 500)
      × (principal_from_context ctx ≡ principal_from_context r.context)
      × (get_tenant_id ctx ≡ get_tenant_id r.context)
      × (from_context default ctx ≡ logger_of s e r.context)
      × ((is_secured e ≡ false)
          ⊎ (value ctx (named (codes "BearerAuth.Scopes")) ≡ some (texts_item [])))
served_by-context s f default e r h =
    let (p, t, l, scopes) = seen-values s default e r in
    (seen s e r, reported s f e r h, p, t, l, scopes)

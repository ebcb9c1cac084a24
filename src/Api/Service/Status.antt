-- ===== src/Api/Service/Status.antt =====
-- The statuses of the API against its document.
use frego_finance.Prelude.{
  ℕ, ◌≡◌, ◌≢◌, sym, arith, refl, ◌∙◌, Bool, true, false, ◌&&◌, none, some, List, [], map,
  if◌then◌else◌, nat_eq, Text, text_eq, codes, Result, ok, err,
}
use frego_finance.Http.{Request, Handler, Served}
use frego_finance.Api.Errors.{ParamError}
use frego_finance.Api.Writer.{
  Writer, finish, fresh, write_error, write_header, write, set_header, set_in,
}
use frego_finance.Api.Responses.{
  Payload, invoices_payload, invoice_payload, receipts_payload, receipt_payload,
  provisioned_payload, written, visit_health_check, visit_list_invoices, visit_create_invoice,
  visit_get_invoice, visit_list_receipts, visit_create_receipt, visit_provision_tenant,
}
use frego_finance.Api.Strict.{
  StrictServerInterface, new_strict_handler, wrap_strict, after_visit, decoded, default_options,
  strict_health_check, strict_list_invoices, strict_create_invoice, strict_get_invoice,
  strict_list_receipts, strict_create_receipt, strict_provision_tenant,
}
use frego_finance.Api.Wrapper.{
  wrap, with_params, list_invoices_params, invoice_id_param, provision_tenant_params,
  wrapped_health_check, wrapped_list_invoices, wrapped_create_invoice, wrapped_get_invoice,
  wrapped_list_receipts, wrapped_create_receipt, wrapped_provision_tenant,
}
use frego_finance.Api.Routes.{handler_with_options, wrapper_of}
use frego_finance.Api.FinanceHandler.{FinanceHandler, finance_server, zero_invoice, zero_receipt}
use frego_finance.Logging.{inject_middleware}
use frego_finance.Api.Service.{
  Setup, Endpoint, health_check, list_invoices, create_invoice, get_invoice, list_receipts,
  create_receipt, provision_tenant, endpoints, documented_route, api_routes, served_by, readable,
  success_status, is_ok, server_of, server_options,
}

-- A status that was written first is sent, also if the encoder fails after it.
json_status :
    (r : Request) (n : ℕ) (res : Result Text Text) (headers : List (Text × Text))
    → (finish (
        after_visit default_options r
          (written res (write_header n (record fresh { headers = headers }))))).status
      ≡ n
unfolding finish write_header write write_error set_header
json_status r n (ok s) headers = refl
json_status r n (err e) headers = refl

pub decoded_status :
    {B : Type 0} (r : Request) (res : Result Text B) (next : B → Writer → Writer) (n : ℕ)
    → ((b : B) → (finish (next b fresh)).status ≡ n)
    → (finish (decoded default_options r res next fresh)).status ≡ (if is_ok res then n else 400)
unfolding finish write_header write write_error set_header
decoded_status r (ok b) next n h = h b
decoded_status r (err e) next n h = refl

abbrev pub status_of : Served → ℕ
status_of x = x.response.status

pub with_params_status :
    {A : Type 0} (s : Setup) (ssi : StrictServerInterface) (res : Result ParamError A)
    (next : A → Handler) (r : Request) (n : ℕ)
    → ((a : A) → status_of (next a r) ≡ n)
    → status_of (with_params s.binder (wrapper_of (server_of s ssi) (server_options s)) res next r)
      ≡ (if is_ok res then n else 400)
unfolding finish write_header write write_error set_header
with_params_status s ssi (ok a) next r n h = h a
with_params_status s ssi (err e) next r n h = refl

if_both :
    (a b : Bool) (n : ℕ) → (if a then (if b then n else 400) else 400) ≡ (if a && b then n else 400)
if_both true b n = refl
if_both false b n = refl

abbrev pub provisioned : Payload
provisioned = provisioned_payload (some (codes "provisioning is now handled centrally")) none none

module _ (s : Setup) (h : FinanceHandler) where
  served-status :
      (e : Endpoint) (r : Request)
      → status_of (served_by s (finance_server h) e r)
        ≡ (if readable s e r then success_status e else 400)
  unfolding served_by wrapped_health_check wrapped_list_invoices wrapped_create_invoice
      wrapped_get_invoice wrapped_list_receipts wrapped_create_receipt wrapped_provision_tenant
      strict_health_check strict_list_invoices strict_create_invoice strict_get_invoice
      strict_list_receipts strict_create_receipt strict_provision_tenant finance_server
      new_strict_handler wrap wrap_strict inject_middleware visit_health_check visit_list_invoices
      visit_create_invoice visit_get_invoice visit_list_receipts visit_create_receipt
      visit_provision_tenant finish write_header write set_header set_in
  served-status health_check r = refl
  served-status list_invoices r =
      with_params_status s (finance_server h) (list_invoices_params s.binder r.query) _ _ 200
        (λ params. json_status r 200 (s.json.encode (invoices_payload (some []) (some 0))) _)
  served-status create_invoice r =
      decoded_status r (s.json.decode_invoice r.body) _ 201
        (λ b. json_status r 201 (s.json.encode (invoice_payload zero_invoice)) _)
  served-status get_invoice r =
      with_params_status s (finance_server h) (invoice_id_param s.binder r) _ _ 200
        (λ id. json_status r 200 (s.json.encode (invoice_payload zero_invoice)) _)
  served-status list_receipts r = json_status r 200 (s.json.encode (receipts_payload (some []))) _
  served-status create_receipt r =
      decoded_status r (s.json.decode_receipt r.body) _ 201
        (λ b. json_status r 201 (s.json.encode (receipt_payload zero_receipt)) _)
  served-status provision_tenant r =
      with_params_status s (finance_server h) (provision_tenant_params s.binder r) _ _ _ (λ params.
        decoded_status r (s.json.decode_provision r.body) _ 200
          (λ b. json_status r 200 (s.json.encode provisioned) _))
      ∙ if_both (is_ok (provision_tenant_params s.binder r))
          (is_ok (s.json.decode_provision r.body)) 200

not_missing : (e : Endpoint) (b : Bool) → (if b then success_status e else 400) ≢ 404
not_missing e false k = absurd (omega (arith, k))
not_missing health_check true k = absurd (omega (arith, k))
not_missing list_invoices true k = absurd (omega (arith, k))
not_missing create_invoice true k = absurd (omega (arith, k))
not_missing get_invoice true k = absurd (omega (arith, k))
not_missing list_receipts true k = absurd (omega (arith, k))
not_missing create_receipt true k = absurd (omega (arith, k))
not_missing provision_tenant true k = absurd (omega (arith, k))

-- The router that the API handler is has one route for each operation of its document, in the order
-- of the document, at the operation's method and at its path below the base URL. Every request that
-- reaches an operation gets the operation's one status for success if its parameters and its body
-- can be read, also where the response cannot be encoded, and 400 if they cannot; so GET
-- /invoices/{invoice_id} answers 200 for every id that can be read, and no operation answers with
-- the 404 that the document has for a missing invoice.
pub api_routes-status :
    (s : Setup) (h : FinanceHandler)
    → (api_routes s (finance_server h) ≡ map (documented_route s (finance_server h)) endpoints)
      × ((e : Endpoint) (r : Request)
          → status_of (served_by s (finance_server h) e r)
            ≡ (if readable s e r then success_status e else 400))
      × ((e : Endpoint) (r : Request) → status_of (served_by s (finance_server h) e r) ≢ 404)
unfolding api_routes handler_with_options served_by
api_routes-status s h = (
  refl,
  served-status s h,
  λ e r k. not_missing e (readable s e r) (sym (served-status s h e r) ∙ k),
)

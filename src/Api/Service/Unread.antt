-- ===== src/Api/Service/Unread.antt =====
-- Requests whose parameters or body cannot be read, and the provisioning that reads no secret.
use frego_finance.Prelude.{
  ℕ, ◌≡◌, refl, sym, ap, ◌∙◌, inl, inr, Bool, true, false, arith, if◌then◌else◌, Bool-cases, nat_eq,
  Text, text_eq, Result, ok, err,
}
use frego_finance.Http.{Request, Response, Handler}
use frego_finance.Api.Errors.{ParamError}
use frego_finance.Api.Writer.{Writer, finish, fresh, write_error, write_header, write, set_header}
use frego_finance.Api.Responses.{written, json_response, visit_provision_tenant}
use frego_finance.Api.Strict.{
  StrictServerInterface, new_strict_handler, wrap_strict, decoded, after_visit, default_options,
  strict_create_invoice, strict_create_receipt, strict_provision_tenant,
}
use frego_finance.Api.Wrapper.{
  wrap, as_handler, with_params, list_invoices_params, invoice_id_param, provision_tenant_params,
  wrapped_list_invoices, wrapped_create_invoice, wrapped_get_invoice, wrapped_create_receipt,
  wrapped_provision_tenant,
}
use frego_finance.Logging.{inject_middleware}
use frego_finance.Api.Routes.{wrapper_of}
use frego_finance.Api.FinanceHandler.{FinanceHandler, finance_server}
use frego_finance.Api.TenantHandler
use frego_finance.Api.TenantHandler.{TenantHandler}
use frego_finance.Api.Service.{
  Setup, Endpoint, health_check, list_invoices, create_invoice, get_invoice, list_receipts,
  create_receipt, provision_tenant, served_by, readable, is_ok, server_of, server_options,
}
use frego_finance.Api.Service.Status.{status_of, provisioned, with_params_status}
use frego_finance.Api.Service.Contexts.{with_params_readable, decoded_readable}

same_400 : (b : Bool) → ◌≡◌ {A = ℕ} (if b then 400 else 400) 400
same_400 true = refl
same_400 false = refl

unread_params :
    {A : Type 0} (s : Setup) (ssi : StrictServerInterface) (res : Result ParamError A)
    (next : A → Handler) (r : Request)
    → is_ok res ≡ false
    → status_of (with_params s.binder (wrapper_of (server_of s ssi) (server_options s)) res next r)
      ≡ 400
unfolding finish write_error write_header write set_header
unread_params s ssi (ok a) next r h = absurd (ground arith)
unread_params s ssi (err e) next r h = refl

unread_body :
    {B : Type 0} (r : Request) (res : Result Text B) (next : B → Writer → Writer)
    → is_ok res ≡ false
    → (finish (decoded default_options r res next fresh)).status ≡ 400
unfolding finish write_error write_header write set_header
unread_body r (ok b) next h = absurd (ground arith)
unread_body r (err e) next h = refl

-- An operation whose parameters or body cannot be read is answered with 400 without its
-- implementation.
pub served_by-unreadable :
    (s : Setup) (ssi : StrictServerInterface) (e : Endpoint) (r : Request)
    → readable s e r ≡ false
    → status_of (served_by s ssi e r) ≡ 400
unfolding served_by wrapped_list_invoices wrapped_create_invoice wrapped_get_invoice
    wrapped_create_receipt wrapped_provision_tenant strict_create_invoice strict_create_receipt
    strict_provision_tenant new_strict_handler wrap inject_middleware
served_by-unreadable s ssi health_check r h = absurd (ground arith)
served_by-unreadable s ssi list_receipts r h = absurd (ground arith)
served_by-unreadable s ssi list_invoices r h =
    unread_params s ssi (list_invoices_params s.binder r.query) _ _ h
served_by-unreadable s ssi create_invoice r h = unread_body r (s.json.decode_invoice r.body) _ h
served_by-unreadable s ssi get_invoice r h = unread_params s ssi (invoice_id_param s.binder r) _ _ h
served_by-unreadable s ssi create_receipt r h = unread_body r (s.json.decode_receipt r.body) _ h
served_by-unreadable s ssi provision_tenant r h =
    elim (Bool-cases (is_ok (provision_tenant_params s.binder r))) [
      | inl e ↦
          with_params_status s ssi (provision_tenant_params s.binder r) _ _ 400
            (λ params. unread_body r (s.json.decode_provision r.body) _ (ground arith))
          ∙ same_400 (is_ok (provision_tenant_params s.binder r))
      | inr e ↦ unread_params s ssi (provision_tenant_params s.binder r) _ _ e
    ]

encoded_alike :
    (r r' : Request) (res : Result Text Text) (w : Writer)
    → after_visit default_options r (written res w) ≡ after_visit default_options r' (written res w)
encoded_alike r r' (ok s) w = refl
encoded_alike r r' (err e) w = refl

-- The answer to a provisioning request that can be read, for any request in the error handler.
abbrev provisioned_response : Setup → Request → Response
provisioned_response s r =
    finish (after_visit default_options r (json_response s.json 200 provisioned fresh))

provisioned-response :
    (s : Setup) (h : FinanceHandler) (r r' : Request)
    → readable s provision_tenant r ≡ true
    → (served_by s (finance_server h) provision_tenant r).response ≡ provisioned_response s r'
unfolding served_by wrapped_provision_tenant strict_provision_tenant new_strict_handler wrap
    wrap_strict inject_middleware finance_server visit_provision_tenant
provisioned-response s h r r' read =
    with_params_readable s (finance_server h) (provision_tenant_params s.binder r) _ _ _
      (ground arith)
      λ p.
        decoded_readable r (s.json.decode_provision r.body) _ _ (ground arith)
          λ b. ap finish (encoded_alike r r' (s.json.encode provisioned) _)

-- The answer to a provisioning request that can be read does not depend on its secret or its body
-- nor on the secret that the service is configured with, and the internal route answers every
-- request in one way: no secret is compared.
pub provision_tenant-secret :
    (s : Setup) (h h' : FinanceHandler) (t t' : TenantHandler) (r r' : Request)
    → readable s provision_tenant r ≡ true
    → readable s provision_tenant r' ≡ true
    → ((served_by s (finance_server h) provision_tenant r).response
        ≡ (served_by s (finance_server h') provision_tenant r').response)
      × ((as_handler (TenantHandler.provision_tenant s.json t) r).response
          ≡ (as_handler (TenantHandler.provision_tenant s.json t') r').response)
unfolding TenantHandler.provision_tenant
provision_tenant-secret s h h' t t' r r' read read' =
    (provisioned-response s h r r read ∙ sym (provisioned-response s h' r' r read'), refl)

-- ===== src/Api/Responses.antt =====
-- The response objects of internal/api/finance.gen.go and their Visit methods, over encoding/json.
use frego_finance.Prelude.{
  ℕ, Option, none, some, List, nat_eq, Text, text_eq, codes, Result, ok, err,
}
use frego_finance.Context.{Uuid}
use frego_finance.Api.Types.{Error, Invoice, Receipt, ProvisionTenantJsonBody}
use frego_finance.Api.Writer.{Writer, set_header, write_header, write}

pub data HealthCheckResponse : Type 0 where
  health_check_200 : Text → HealthCheckResponse

pub data ListInvoicesResponse : Type 0 where
  list_invoices_200 : (invoices : Option (List Invoice)) (total : Option ℕ) → ListInvoicesResponse
  list_invoices_401 list_invoices_403 : ListInvoicesResponse

pub data CreateInvoiceResponse : Type 0 where
  create_invoice_201 : Invoice → CreateInvoiceResponse
  create_invoice_400 : Error → CreateInvoiceResponse

pub data GetInvoiceResponse : Type 0 where
  get_invoice_200 : Invoice → GetInvoiceResponse
  get_invoice_404 : GetInvoiceResponse

pub data ListReceiptsResponse : Type 0 where
  list_receipts_200 : (receipts : Option (List Receipt)) → ListReceiptsResponse

pub data CreateReceiptResponse : Type 0 where
  create_receipt_201 : Receipt → CreateReceiptResponse

pub data ProvisionTenantResponse : Type 0 where
  provision_tenant_200 :
      (message schema_name : Option Text) (tenant_id : Option Uuid) → ProvisionTenantResponse
  provision_tenant_400 provision_tenant_500 : Error → ProvisionTenantResponse

-- The values that are encoded.
pub data Payload : Type 0 where
  invoices_payload : (invoices : Option (List Invoice)) (total : Option ℕ) → Payload
  invoice_payload : Invoice → Payload
  receipts_payload : (receipts : Option (List Receipt)) → Payload
  receipt_payload : Receipt → Payload
  provisioned_payload : (message schema_name : Option Text) (tenant_id : Option Uuid) → Payload
  tenant_payload : (message tenant_id schema_name : Text) → Payload
  error_payload : Error → Payload

-- encoding/json: the text of a value with its line feed, or an error before anything is written,
-- and the decoders of the request bodies.
pub record Json : Type 0 where
  pub encode : Payload → Result Text Text
  pub decode_invoice : Text → Result Text Invoice
  pub decode_receipt : Text → Result Text Receipt
  pub decode_provision : Text → Result Text ProvisionTenantJsonBody

abbrev pub written : Result Text Text → Writer → Writer × Option Text
written (ok s) w = (write s w, none)
written (err e) w = (w, some e)

module _ (json : Json) where
  abbrev pub json_response : ℕ → Payload → Writer → Writer × Option Text
  json_response status payload w =
      written (json.encode payload)
        (write_header status (set_header (codes "Content-Type") (codes "application/json") w))

  unfoldable pub visit_health_check : HealthCheckResponse → Writer → Writer × Option Text
  visit_health_check (health_check_200 s) w =
      (write s (write_header 200 (set_header (codes "Content-Type") (codes "text/plain") w)), none)

  unfoldable pub visit_list_invoices : ListInvoicesResponse → Writer → Writer × Option Text
  visit_list_invoices (list_invoices_200 invoices total) w =
      json_response 200 (invoices_payload invoices total) w
  visit_list_invoices list_invoices_401 w = (write_header 401 w, none)
  visit_list_invoices list_invoices_403 w = (write_header 403 w, none)

  unfoldable pub visit_create_invoice : CreateInvoiceResponse → Writer → Writer × Option Text
  visit_create_invoice (create_invoice_201 i) w = json_response 201 (invoice_payload i) w
  visit_create_invoice (create_invoice_400 e) w = json_response 400 (error_payload e) w

  unfoldable pub visit_get_invoice : GetInvoiceResponse → Writer → Writer × Option Text
  visit_get_invoice (get_invoice_200 i) w = json_response 200 (invoice_payload i) w
  visit_get_invoice get_invoice_404 w = (write_header 404 w, none)

  unfoldable pub visit_list_receipts : ListReceiptsResponse → Writer → Writer × Option Text
  visit_list_receipts (list_receipts_200 receipts) w =
      json_response 200 (receipts_payload receipts) w

  unfoldable pub visit_create_receipt : CreateReceiptResponse → Writer → Writer × Option Text
  visit_create_receipt (create_receipt_201 r) w = json_response 201 (receipt_payload r) w

  unfoldable pub visit_provision_tenant : ProvisionTenantResponse → Writer → Writer × Option Text
  visit_provision_tenant (provision_tenant_200 message schema_name tenant_id) w =
      json_response 200 (provisioned_payload message schema_name tenant_id) w
  visit_provision_tenant (provision_tenant_400 e) w = json_response 400 (error_payload e) w
  visit_provision_tenant (provision_tenant_500 e) w = json_response 500 (error_payload e) w

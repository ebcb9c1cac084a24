-- ===== src/Api/FinanceHandler.antt =====
-- internal/api/handler.go. The two services behind the handler have no part in what it answers.
use frego_finance.Prelude.{ℕ, none, some, [], nat_eq, Text, text_eq, codes, ok}
use frego_finance.Api.Types.{Invoice, Receipt, nil_uuid}
use frego_finance.Api.Responses.{
  health_check_200, list_invoices_200, create_invoice_201, get_invoice_200, list_receipts_200,
  create_receipt_201, provision_tenant_200,
}
use frego_finance.Api.Strict.{StrictServerInterface, reply}

-- The fields of FinanceHandler that are plain values.
pub record FinanceHandler : Type 0 where
  pub max_upload_size : ℕ
  pub internal_secret : Text

unfoldable pub new_finance_handler : (max_upload_size : ℕ) (internal_secret : Text) → FinanceHandler
new_finance_handler max_upload_size internal_secret = record {
  max_upload_size = max_upload_size;
  internal_secret = internal_secret;
}

-- Invoice{} and Receipt{}
abbrev pub zero_invoice : Invoice
zero_invoice = record {
  approval_status = none;
  created_at = none;
  currency_code = [];
  customer_id = nil_uuid;
  grand_total_amount = none;
  id = none;
  invoice_date = 0;
  invoice_no = [];
  invoice_type = none;
  job_id = none;
}

abbrev pub zero_receipt : Receipt
zero_receipt = record {
  approval_status = none;
  currency_code = [];
  customer_id = nil_uuid;
  id = none;
  receipt_date = 0;
  receipt_no = [];
  received_amount_customer = none;
}

-- The methods of the handler.
unfoldable pub finance_server : FinanceHandler → StrictServerInterface
finance_server h = record {
  provision_tenant = λ ctx request. ok (
      reply
        (provision_tenant_200 (some (codes "provisioning is now handled centrally")) none none));
  health_check = λ ctx request. ok (reply (health_check_200 (codes "OK")));
  list_invoices = λ ctx request. ok (reply (list_invoices_200 (some []) (some 0)));
  create_invoice = λ ctx request. ok (reply (create_invoice_201 zero_invoice));
  get_invoice = λ ctx request. ok (reply (get_invoice_200 zero_invoice));
  list_receipts = λ ctx request. ok (reply (list_receipts_200 (some [])));
  create_receipt = λ ctx request. ok (reply (create_receipt_201 zero_receipt));
}

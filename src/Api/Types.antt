-- ===== src/Api/Types.antt =====
-- The models of internal/api/finance.gen.go. A float64 and an int are bit patterns; an instant is
-- the nanoseconds since the zero value of time.Time, and a date is such an instant.
use frego_finance.Prelude.{ℕ, Option, [], ◌∷◌, nat_eq, Text, text_eq, codes}
use frego_finance.Context.{Uuid}
use frego_finance.Context.Claims.{Entries}

abbrev pub nil_uuid : Uuid
nil_uuid = 0 ∷ 0 ∷ 0 ∷ 0 ∷ 0 ∷ 0 ∷ 0 ∷ 0 ∷ 0 ∷ 0 ∷ 0 ∷ 0 ∷ 0 ∷ 0 ∷ 0 ∷ 0 ∷ []

pub record Error : Type 0 where
  pub code : Text
  pub details : Option Entries
  pub message : Text

-- InvoiceApprovalStatus is a string type; these are its named values.
pub data InvoiceApprovalStatus : Type 0 where
  approved draft pending_approval posted returned : InvoiceApprovalStatus
  other_status : Text → InvoiceApprovalStatus

unfoldable pub status_text : InvoiceApprovalStatus → Text
status_text approved = codes "Approved"
status_text draft = codes "Draft"
status_text pending_approval = codes "Pending Approval"
status_text posted = codes "Posted"
status_text returned = codes "Returned"
status_text (other_status s) = s

pub record Invoice : Type 0 where
  pub approval_status : Option InvoiceApprovalStatus
  pub created_at : Option ℕ
  pub currency_code : Text
  pub customer_id : Uuid
  pub grand_total_amount : Option ℕ
  pub id : Option Uuid
  pub invoice_date : ℕ
  pub invoice_no : Text
  pub invoice_type : Option Text
  pub job_id : Option Uuid

pub record Receipt : Type 0 where
  pub approval_status : Option Text
  pub currency_code : Text
  pub customer_id : Uuid
  pub id : Option Uuid
  pub receipt_date : ℕ
  pub receipt_no : Text
  pub received_amount_customer : Option ℕ

pub record ListInvoicesParams : Type 0 where
  pub customer_id : Option Uuid
  pub status : Option Text
  pub limit : Option ℕ
  pub offset : Option ℕ

pub record ProvisionTenantJsonBody : Type 0 where
  pub actor : Option Text
  pub display_name : Option Text
  pub tenant_id : Uuid

pub record ProvisionTenantParams : Type 0 where
  pub secret : Text

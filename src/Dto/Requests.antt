-- ===== src/Dto/Requests.antt =====
-- internal/dto/finance/requests.go: the other requests, and the responses.
use frego_finance.Prelude.{ℕ, Option, List, [], ◌∷◌, Text, codes}
use frego_finance.Context.Claims.{Entries}
use frego_finance.Dto.Wire.{Field, always, array, number, objects, optional, text, unless_end}
use frego_finance.Dto.Invoices.{Invoice, invoice_fields}
use frego_finance.Dto.Receipts.{Receipt, receipt_fields}

pub record ListInvoicesRequest : Type 0 where
  pub customer_id : Option Text
  pub status : Option Text
  pub from_date : Option Text
  pub to_date : Option Text
  pub limit : ℕ
  pub offset : ℕ

unfoldable pub list_invoices_request_fields : ListInvoicesRequest → List Field
list_invoices_request_fields x =
    optional (codes "customer_id") text x.customer_id
    ∷ optional (codes "status") text x.status
    ∷ optional (codes "from_date") text x.from_date
    ∷ optional (codes "to_date") text x.to_date
    ∷ always (codes "limit") (number x.limit)
    ∷ always (codes "offset") (number x.offset)
    ∷ []

pub record ListInvoicesResponse : Type 0 where
  pub invoices : List Invoice
  pub total : ℕ
  pub limit : ℕ
  pub offset : ℕ

unfoldable pub list_invoices_response_fields : ListInvoicesResponse → List Field
unfolding objects invoice_fields
list_invoices_response_fields x =
    always (codes "invoices") (array (objects invoice_fields x.invoices))
    ∷ always (codes "total") (number x.total)
    ∷ always (codes "limit") (number x.limit)
    ∷ always (codes "offset") (number x.offset)
    ∷ []

pub record ListReceiptsRequest : Type 0 where
  pub customer_id : Option Text
  pub from_date : Option Text
  pub to_date : Option Text
  pub limit : ℕ
  pub offset : ℕ

unfoldable pub list_receipts_request_fields : ListReceiptsRequest → List Field
list_receipts_request_fields x =
    optional (codes "customer_id") text x.customer_id
    ∷ optional (codes "from_date") text x.from_date
    ∷ optional (codes "to_date") text x.to_date
    ∷ always (codes "limit") (number x.limit)
    ∷ always (codes "offset") (number x.offset)
    ∷ []

pub record ListReceiptsResponse : Type 0 where
  pub receipts : List Receipt
  pub total : ℕ
  pub limit : ℕ
  pub offset : ℕ

unfoldable pub list_receipts_response_fields : ListReceiptsResponse → List Field
unfolding objects receipt_fields
list_receipts_response_fields x =
    always (codes "receipts") (array (objects receipt_fields x.receipts))
    ∷ always (codes "total") (number x.total)
    ∷ always (codes "limit") (number x.limit)
    ∷ always (codes "offset") (number x.offset)
    ∷ []

pub record ApproveInvoiceRequest : Type 0 where
  pub approval_remarks : Option Text

unfoldable pub approve_invoice_request_fields : ApproveInvoiceRequest → List Field
approve_invoice_request_fields x = optional (codes "approval_remarks") text x.approval_remarks ∷ []

pub record PostInvoiceRequest : Type 0 where
  pub posting_date : Option Text

unfoldable pub post_invoice_request_fields : PostInvoiceRequest → List Field
post_invoice_request_fields x = optional (codes "posting_date") text x.posting_date ∷ []

pub record ErrorResponse : Type 0 where
  pub code : Text
  pub message : Text
  pub details : Entries

unfoldable pub error_response_fields : ErrorResponse → List Field
error_response_fields x =
    always (codes "code") (text x.code)
    ∷ always (codes "message") (text x.message)
    ∷ (codes "details", unless_end x.details)
    ∷ []

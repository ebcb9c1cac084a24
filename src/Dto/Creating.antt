-- ===== src/Dto/Creating.antt =====
-- internal/dto/finance/requests.go: the requests that create documents.
use frego_finance.Prelude.{ℕ, Option, List, [], ◌∷◌, Text, codes}
use frego_finance.Dto.Wire.{
  Field, always, array, number, objects, optional, text, unless_no_objects,
}

pub record CreateInvoiceLine : Type 0 where
  pub line_no : ℕ
  pub invoice_type_code : Option Text
  pub item_description : Text
  pub item_code : Option Text
  pub quantity : Option ℕ
  pub unit_price : Option ℕ
  pub amount_without_tax : Option ℕ
  pub tax_code_id : Option Text
  pub tax_rate_percent : Option ℕ
  pub tax_amount : Option ℕ
  pub line_notes : Option Text

unfoldable pub create_invoice_line_fields : CreateInvoiceLine → List Field
create_invoice_line_fields x =
    always (codes "line_no") (number x.line_no)
    ∷ optional (codes "invoice_type_code") text x.invoice_type_code
    ∷ always (codes "item_description") (text x.item_description)
    ∷ optional (codes "item_code") text x.item_code
    ∷ optional (codes "quantity") number x.quantity
    ∷ optional (codes "unit_price") number x.unit_price
    ∷ optional (codes "amount_without_tax") number x.amount_without_tax
    ∷ optional (codes "tax_code_id") text x.tax_code_id
    ∷ optional (codes "tax_rate_percent") number x.tax_rate_percent
    ∷ optional (codes "tax_amount") number x.tax_amount
    ∷ optional (codes "line_notes") text x.line_notes
    ∷ []

pub record CreateInvoiceRequest : Type 0 where
  pub invoice_no : Text
  pub invoice_type : Text
  pub invoice_date : Text
  pub customer_id : Text
  pub job_id : Option Text
  pub currency_code : Text
  pub exchange_rate : Option ℕ
  pub payment_term_code : Option Text
  pub customer_po_number : Option Text
  pub sales_executive_id : Option Text
  pub notes_operations : Option Text
  pub notes_finance : Option Text
  pub remarks : Option Text
  pub lines : List CreateInvoiceLine

unfoldable pub create_invoice_request_fields : CreateInvoiceRequest → List Field
unfolding objects create_invoice_line_fields
create_invoice_request_fields x =
    always (codes "invoice_no") (text x.invoice_no)
    ∷ always (codes "invoice_type") (text x.invoice_type)
    ∷ always (codes "invoice_date") (text x.invoice_date)
    ∷ always (codes "customer_id") (text x.customer_id)
    ∷ optional (codes "job_id") text x.job_id
    ∷ always (codes "currency_code") (text x.currency_code)
    ∷ optional (codes "exchange_rate") number x.exchange_rate
    ∷ optional (codes "payment_term_code") text x.payment_term_code
    ∷ optional (codes "customer_po_number") text x.customer_po_number
    ∷ optional (codes "sales_executive_id") text x.sales_executive_id
    ∷ optional (codes "notes_operations") text x.notes_operations
    ∷ optional (codes "notes_finance") text x.notes_finance
    ∷ optional (codes "remarks") text x.remarks
    ∷ always (codes "lines") (array (objects create_invoice_line_fields x.lines))
    ∷ []

pub record CreateReceiptAllocation : Type 0 where
  pub line_no : ℕ
  pub invoice_id : Text
  pub allocated_amount : ℕ

unfoldable pub create_receipt_allocation_fields : CreateReceiptAllocation → List Field
create_receipt_allocation_fields x =
    always (codes "line_no") (number x.line_no)
    ∷ always (codes "invoice_id") (text x.invoice_id)
    ∷ always (codes "allocated_amount") (number x.allocated_amount)
    ∷ []

pub record CreateReceiptRequest : Type 0 where
  pub receipt_no : Text
  pub receipt_type : Text
  pub receipt_date : Text
  pub customer_id : Text
  pub currency_code : Text
  pub exchange_rate : Option ℕ
  pub payment_mode_id : Option ℕ
  pub bank_account_id : Option Text
  pub cheque_txn_no : Option Text
  pub received_amount_customer : ℕ
  pub receipt_purpose : Option Text
  pub remarks : Option Text
  pub allocations : List CreateReceiptAllocation

unfoldable pub create_receipt_request_fields : CreateReceiptRequest → List Field
unfolding objects create_receipt_allocation_fields
create_receipt_request_fields x =
    always (codes "receipt_no") (text x.receipt_no)
    ∷ always (codes "receipt_type") (text x.receipt_type)
    ∷ always (codes "receipt_date") (text x.receipt_date)
    ∷ always (codes "customer_id") (text x.customer_id)
    ∷ always (codes "currency_code") (text x.currency_code)
    ∷ optional (codes "exchange_rate") number x.exchange_rate
    ∷ optional (codes "payment_mode_id") number x.payment_mode_id
    ∷ optional (codes "bank_account_id") text x.bank_account_id
    ∷ optional (codes "cheque_txn_no") text x.cheque_txn_no
    ∷ always (codes "received_amount_customer") (number x.received_amount_customer)
    ∷ optional (codes "receipt_purpose") text x.receipt_purpose
    ∷ optional (codes "remarks") text x.remarks
    ∷ (
      codes "allocations",
      unless_no_objects (objects create_receipt_allocation_fields x.allocations),
    )
    ∷ []

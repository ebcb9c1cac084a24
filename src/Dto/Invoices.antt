-- ===== src/Dto/Invoices.antt =====
-- internal/dto/finance/types.go: Invoice and its lines.
use frego_finance.Prelude.{ℕ, Bool, Option, List, [], ◌∷◌, Text, codes}
use frego_finance.Context.{Uuid}
use frego_finance.Dto.Wire.{
  Field, always, flag, instant, number, objects, optional, text, unless_no_objects, uuid,
}

pub record InvoiceLine : Type 0 where
  pub id : Uuid
  pub invoice_id : Uuid
  pub line_no : ℕ
  pub invoice_type_code : Option Text
  pub item_description : Text
  pub item_code : Option Text
  pub quantity : Option ℕ
  pub unit_price : Option ℕ
  pub amount_without_tax : Option ℕ
  pub tax_code_id : Option Uuid
  pub tax_rate_percent : Option ℕ
  pub tax_amount : Option ℕ
  pub line_total_with_tax : Option ℕ
  pub line_notes : Option Text
  pub created_at : ℕ
  pub created_by : Option Text
  pub modified_at : Option ℕ
  pub modified_by : Option Text
  pub is_active : Bool

unfoldable pub invoice_line_fields : InvoiceLine → List Field
invoice_line_fields x =
    always (codes "id") (uuid x.id)
    ∷ always (codes "invoice_id") (uuid x.invoice_id)
    ∷ always (codes "line_no") (number x.line_no)
    ∷ optional (codes "invoice_type_code") text x.invoice_type_code
    ∷ always (codes "item_description") (text x.item_description)
    ∷ optional (codes "item_code") text x.item_code
    ∷ optional (codes "quantity") number x.quantity
    ∷ optional (codes "unit_price") number x.unit_price
    ∷ optional (codes "amount_without_tax") number x.amount_without_tax
    ∷ optional (codes "tax_code_id") uuid x.tax_code_id
    ∷ optional (codes "tax_rate_percent") number x.tax_rate_percent
    ∷ optional (codes "tax_amount") number x.tax_amount
    ∷ optional (codes "line_total_with_tax") number x.line_total_with_tax
    ∷ optional (codes "line_notes") text x.line_notes
    ∷ always (codes "created_at") (instant x.created_at)
    ∷ optional (codes "created_by") text x.created_by
    ∷ optional (codes "modified_at") instant x.modified_at
    ∷ optional (codes "modified_by") text x.modified_by
    ∷ always (codes "is_active") (flag x.is_active)
    ∷ []

pub record Invoice : Type 0 where
  pub id : Uuid
  pub invoice_no : Text
  pub invoice_type : Text
  pub invoice_date : ℕ
  pub customer_id : Uuid
  pub job_id : Option Uuid
  pub billing_address : Option Text
  pub billing_country : Option Text
  pub currency_code : Text
  pub exchange_rate : Option ℕ
  pub payment_term_code : Option Text
  pub customer_po_number : Option Text
  pub customer_po_date : Option ℕ
  pub sales_executive_id : Option Uuid
  pub subtotal_amount : Option ℕ
  pub tax_amount : Option ℕ
  pub grand_total_amount : Option ℕ
  pub amount_in_base_currency : Option ℕ
  pub advance_to_adjust : Option ℕ
  pub net_amount_after_advance : Option ℕ
  pub profit_base_currency : Option ℕ
  pub notes_operations : Option Text
  pub notes_finance : Option Text
  pub supporting_documents : Option Text
  pub remarks : Option Text
  pub approval_status : Option Text
  pub approval_remarks : Option Text
  pub invoice_status : Option Text
  pub gl_posting_status : Option Text
  pub posting_reference_no : Option Text
  pub created_by : Option Text
  pub created_at : ℕ
  pub last_updated_by : Option Text
  pub last_updated_at : Option ℕ
  pub approved_by : Option Text
  pub approved_at : Option ℕ
  pub posted_by : Option Text
  pub posted_at : Option ℕ
  pub is_active : Bool
  pub lines : List InvoiceLine

unfoldable pub invoice_fields : Invoice → List Field
unfolding objects invoice_line_fields
invoice_fields x =
    always (codes "id") (uuid x.id)
    ∷ always (codes "invoice_no") (text x.invoice_no)
    ∷ always (codes "invoice_type") (text x.invoice_type)
    ∷ always (codes "invoice_date") (instant x.invoice_date)
    ∷ always (codes "customer_id") (uuid x.customer_id)
    ∷ optional (codes "job_id") uuid x.job_id
    ∷ optional (codes "billing_address") text x.billing_address
    ∷ optional (codes "billing_country") text x.billing_country
    ∷ always (codes "currency_code") (text x.currency_code)
    ∷ optional (codes "exchange_rate") number x.exchange_rate
    ∷ optional (codes "payment_term_code") text x.payment_term_code
    ∷ optional (codes "customer_po_number") text x.customer_po_number
    ∷ optional (codes "customer_po_date") instant x.customer_po_date
    ∷ optional (codes "sales_executive_id") uuid x.sales_executive_id
    ∷ optional (codes "subtotal_amount") number x.subtotal_amount
    ∷ optional (codes "tax_amount") number x.tax_amount
    ∷ optional (codes "grand_total_amount") number x.grand_total_amount
    ∷ optional (codes "amount_in_base_currency") number x.amount_in_base_currency
    ∷ optional (codes "advance_to_adjust") number x.advance_to_adjust
    ∷ optional (codes "net_amount_after_advance") number x.net_amount_after_advance
    ∷ optional (codes "profit_base_currency") number x.profit_base_currency
    ∷ optional (codes "notes_operations") text x.notes_operations
    ∷ optional (codes "notes_finance") text x.notes_finance
    ∷ optional (codes "supporting_documents") text x.supporting_documents
    ∷ optional (codes "remarks") text x.remarks
    ∷ optional (codes "approval_status") text x.approval_status
    ∷ optional (codes "approval_remarks") text x.approval_remarks
    ∷ optional (codes "invoice_status") text x.invoice_status
    ∷ optional (codes "gl_posting_status") text x.gl_posting_status
    ∷ optional (codes "posting_reference_no") text x.posting_reference_no
    ∷ optional (codes "created_by") text x.created_by
    ∷ always (codes "created_at") (instant x.created_at)
    ∷ optional (codes "last_updated_by") text x.last_updated_by
    ∷ optional (codes "last_updated_at") instant x.last_updated_at
    ∷ optional (codes "approved_by") text x.approved_by
    ∷ optional (codes "approved_at") instant x.approved_at
    ∷ optional (codes "posted_by") text x.posted_by
    ∷ optional (codes "posted_at") instant x.posted_at
    ∷ always (codes "is_active") (flag x.is_active)
    ∷ (codes "lines", unless_no_objects (objects invoice_line_fields x.lines))
    ∷ []

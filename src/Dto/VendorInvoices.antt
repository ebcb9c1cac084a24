-- ===== src/Dto/VendorInvoices.antt =====
-- internal/dto/finance/types.go: VendorInvoice and its lines.
use frego_finance.Prelude.{ℕ, Bool, Option, List, [], ◌∷◌, Text, codes}
use frego_finance.Context.{Uuid}
use frego_finance.Dto.Wire.{
  Field, always, flag, instant, number, objects, optional, text, unless_no_objects, uuid,
}

pub record VendorInvoiceLine : Type 0 where
  pub id : Uuid
  pub vendor_invoice_id : Uuid
  pub line_no : ℕ
  pub ops_provision_id : Option Uuid
  pub item_description : Text
  pub quantity : Option ℕ
  pub unit_price : Option ℕ
  pub discount_amount : Option ℕ
  pub tax_code_id : Option Uuid
  pub tax_rate_percent : Option ℕ
  pub tax_amount : Option ℕ
  pub line_amount : Option ℕ
  pub expense_gl_account_id : Option Uuid
  pub line_notes : Option Text
  pub created_at : ℕ
  pub created_by : Option Text
  pub modified_at : Option ℕ
  pub modified_by : Option Text
  pub is_active : Bool

unfoldable pub vendor_invoice_line_fields : VendorInvoiceLine → List Field
vendor_invoice_line_fields x =
    always (codes "id") (uuid x.id)
    ∷ always (codes "vendor_invoice_id") (uuid x.vendor_invoice_id)
    ∷ always (codes "line_no") (number x.line_no)
    ∷ optional (codes "ops_provision_id") uuid x.ops_provision_id
    ∷ always (codes "item_description") (text x.item_description)
    ∷ optional (codes "quantity") number x.quantity
    ∷ optional (codes "unit_price") number x.unit_price
    ∷ optional (codes "discount_amount") number x.discount_amount
    ∷ optional (codes "tax_code_id") uuid x.tax_code_id
    ∷ optional (codes "tax_rate_percent") number x.tax_rate_percent
    ∷ optional (codes "tax_amount") number x.tax_amount
    ∷ optional (codes "line_amount") number x.line_amount
    ∷ optional (codes "expense_gl_account_id") uuid x.expense_gl_account_id
    ∷ optional (codes "line_notes") text x.line_notes
    ∷ always (codes "created_at") (instant x.created_at)
    ∷ optional (codes "created_by") text x.created_by
    ∷ optional (codes "modified_at") instant x.modified_at
    ∷ optional (codes "modified_by") text x.modified_by
    ∷ always (codes "is_active") (flag x.is_active)
    ∷ []

pub record VendorInvoice : Type 0 where
  pub id : Uuid
  pub vendor_invoice_no : Text
  pub system_invoice_no : Text
  pub vendor_id : Uuid
  pub invoice_date : ℕ
  pub due_date : Option ℕ
  pub payment_term_code : Option Text
  pub invoice_type : Option Text
  pub job_id : Option Uuid
  pub department_cost_center_code : Option Text
  pub cost_head_gl_account_id : Option Uuid
  pub asset_category_code : Option Text
  pub currency_code : Text
  pub exchange_rate : Option ℕ
  pub subtotal_amount : Option ℕ
  pub tax_amount : Option ℕ
  pub total_amount : Option ℕ
  pub amount_base_currency : Option ℕ
  pub provision_amount : Option ℕ
  pub provision_difference : Option ℕ
  pub notes_operations : Option Text
  pub vendor_supporting_documents : Option Text
  pub internal_comments : Option Text
  pub approval_status : Option Text
  pub approval_remarks : Option Text
  pub reversal_reference : Option Text
  pub invoice_status : Option Text
  pub gl_posting_reference : Option Text
  pub gl_posting_status : Option Text
  pub created_by : Option Text
  pub created_at : ℕ
  pub last_updated_by : Option Text
  pub last_updated_at : Option ℕ
  pub approved_by : Option Text
  pub approved_at : Option ℕ
  pub posted_by : Option Text
  pub posted_at : Option ℕ
  pub is_active : Bool
  pub lines : List VendorInvoiceLine

unfoldable pub vendor_invoice_fields : VendorInvoice → List Field
unfolding objects vendor_invoice_line_fields
vendor_invoice_fields x =
    always (codes "id") (uuid x.id)
    ∷ always (codes "vendor_invoice_no") (text x.vendor_invoice_no)
    ∷ always (codes "system_invoice_no") (text x.system_invoice_no)
    ∷ always (codes "vendor_id") (uuid x.vendor_id)
    ∷ always (codes "invoice_date") (instant x.invoice_date)
    ∷ optional (codes "due_date") instant x.due_date
    ∷ optional (codes "payment_term_code") text x.payment_term_code
    ∷ optional (codes "invoice_type") text x.invoice_type
    ∷ optional (codes "job_id") uuid x.job_id
    ∷ optional (codes "department_cost_center_code") text x.department_cost_center_code
    ∷ optional (codes "cost_head_gl_account_id") uuid x.cost_head_gl_account_id
    ∷ optional (codes "asset_category_code") text x.asset_category_code
    ∷ always (codes "currency_code") (text x.currency_code)
    ∷ optional (codes "exchange_rate") number x.exchange_rate
    ∷ optional (codes "subtotal_amount") number x.subtotal_amount
    ∷ optional (codes "tax_amount") number x.tax_amount
    ∷ optional (codes "total_amount") number x.total_amount
    ∷ optional (codes "amount_base_currency") number x.amount_base_currency
    ∷ optional (codes "provision_amount") number x.provision_amount
    ∷ optional (codes "provision_difference") number x.provision_difference
    ∷ optional (codes "notes_operations") text x.notes_operations
    ∷ optional (codes "vendor_supporting_documents") text x.vendor_supporting_documents
    ∷ optional (codes "internal_comments") text x.internal_comments
    ∷ optional (codes "approval_status") text x.approval_status
    ∷ optional (codes "approval_remarks") text x.approval_remarks
    ∷ optional (codes "reversal_reference") text x.reversal_reference
    ∷ optional (codes "invoice_status") text x.invoice_status
    ∷ optional (codes "gl_posting_reference") text x.gl_posting_reference
    ∷ optional (codes "gl_posting_status") text x.gl_posting_status
    ∷ optional (codes "created_by") text x.created_by
    ∷ always (codes "created_at") (instant x.created_at)
    ∷ optional (codes "last_updated_by") text x.last_updated_by
    ∷ optional (codes "last_updated_at") instant x.last_updated_at
    ∷ optional (codes "approved_by") text x.approved_by
    ∷ optional (codes "approved_at") instant x.approved_at
    ∷ optional (codes "posted_by") text x.posted_by
    ∷ optional (codes "posted_at") instant x.posted_at
    ∷ always (codes "is_active") (flag x.is_active)
    ∷ (codes "lines", unless_no_objects (objects vendor_invoice_line_fields x.lines))
    ∷ []

-- ===== src/Dto/Receipts.antt =====
-- internal/dto/finance/types.go: Receipt and its allocations.
use frego_finance.Prelude.{ℕ, Bool, Option, List, [], ◌∷◌, Text, codes}
use frego_finance.Context.{Uuid}
use frego_finance.Dto.Wire.{
  Field, always, flag, instant, number, objects, optional, text, unless_no_objects, uuid,
}

pub record ReceiptAllocation : Type 0 where
  pub id : Uuid
  pub receipt_id : Uuid
  pub line_no : ℕ
  pub invoice_id : Option Uuid
  pub invoice_no_snapshot : Option Text
  pub invoice_date_snapshot : Option ℕ
  pub invoice_amount : Option ℕ
  pub outstanding_amount : Option ℕ
  pub allocated_amount : Option ℕ
  pub created_at : ℕ
  pub created_by : Option Text
  pub modified_at : Option ℕ
  pub modified_by : Option Text
  pub is_active : Bool

unfoldable pub receipt_allocation_fields : ReceiptAllocation → List Field
receipt_allocation_fields x =
    always (codes "id") (uuid x.id)
    ∷ always (codes "receipt_id") (uuid x.receipt_id)
    ∷ always (codes "line_no") (number x.line_no)
    ∷ optional (codes "invoice_id") uuid x.invoice_id
    ∷ optional (codes "invoice_no_snapshot") text x.invoice_no_snapshot
    ∷ optional (codes "invoice_date_snapshot") instant x.invoice_date_snapshot
    ∷ optional (codes "invoice_amount") number x.invoice_amount
    ∷ optional (codes "outstanding_amount") number x.outstanding_amount
    ∷ optional (codes "allocated_amount") number x.allocated_amount
    ∷ always (codes "created_at") (instant x.created_at)
    ∷ optional (codes "created_by") text x.created_by
    ∷ optional (codes "modified_at") instant x.modified_at
    ∷ optional (codes "modified_by") text x.modified_by
    ∷ always (codes "is_active") (flag x.is_active)
    ∷ []

pub record Receipt : Type 0 where
  pub id : Uuid
  pub receipt_no : Text
  pub receipt_type : Text
  pub receipt_date : ℕ
  pub customer_id : Uuid
  pub currency_code : Text
  pub exchange_rate : Option ℕ
  pub payment_mode_id : Option ℕ
  pub bank_account_id : Option Uuid
  pub cheque_txn_no : Option Text
  pub payment_date : Option ℕ
  pub receipt_reference : Option Text
  pub supporting_documents : Option Text
  pub received_amount_customer : Option ℕ
  pub amount_in_base_currency : Option ℕ
  pub receipt_purpose : Option Text
  pub remarks : Option Text
  pub total_allocated_amount : Option ℕ
  pub unallocated_amount : Option ℕ
  pub advance_carry_forward_flag : Option Bool
  pub advance_reference_no : Option Text
  pub advance_amount_customer : Option ℕ
  pub advance_amount_base : Option ℕ
  pub advance_job_or_enquiry : Option Text
  pub advance_utilization_status : Option Text
  pub advance_utilization_ref : Option Text
  pub advance_utilized_amount : Option ℕ
  pub advance_balance_amount : Option ℕ
  pub approval_status : Option Text
  pub approval_remarks : Option Text
  pub gl_posting_status : Option Text
  pub posting_reference_no : Option Text
  pub created_by : Option Text
  pub created_at : ℕ
  pub last_updated_by : Option Text
  pub last_updated_at : Option ℕ
  pub approved_by : Option Text
  pub approved_at : Option ℕ
  pub posted_by : Option Text
  pub posted_at : Option ℕ
  pub is_active : Bool
  pub allocations : List ReceiptAllocation

unfoldable pub receipt_fields : Receipt → List Field
unfolding objects receipt_allocation_fields
receipt_fields x =
    always (codes "id") (uuid x.id)
    ∷ always (codes "receipt_no") (text x.receipt_no)
    ∷ always (codes "receipt_type") (text x.receipt_type)
    ∷ always (codes "receipt_date") (instant x.receipt_date)
    ∷ always (codes "customer_id") (uuid x.customer_id)
    ∷ always (codes "currency_code") (text x.currency_code)
    ∷ optional (codes "exchange_rate") number x.exchange_rate
    ∷ optional (codes "payment_mode_id") number x.payment_mode_id
    ∷ optional (codes "bank_account_id") uuid x.bank_account_id
    ∷ optional (codes "cheque_txn_no") text x.cheque_txn_no
    ∷ optional (codes "payment_date") instant x.payment_date
    ∷ optional (codes "receipt_reference") text x.receipt_reference
    ∷ optional (codes "supporting_documents") text x.supporting_documents
    ∷ optional (codes "received_amount_customer") number x.received_amount_customer
    ∷ optional (codes "amount_in_base_currency") number x.amount_in_base_currency
    ∷ optional (codes "receipt_purpose") text x.receipt_purpose
    ∷ optional (codes "remarks") text x.remarks
    ∷ optional (codes "total_allocated_amount") number x.total_allocated_amount
    ∷ optional (codes "unallocated_amount") number x.unallocated_amount
    ∷ optional (codes "advance_carry_forward_flag") flag x.advance_carry_forward_flag
    ∷ optional (codes "advance_reference_no") text x.advance_reference_no
    ∷ optional (codes "advance_amount_customer") number x.advance_amount_customer
    ∷ optional (codes "advance_amount_base") number x.advance_amount_base
    ∷ optional (codes "advance_job_or_enquiry") text x.advance_job_or_enquiry
    ∷ optional (codes "advance_utilization_status") text x.advance_utilization_status
    ∷ optional (codes "advance_utilization_ref") text x.advance_utilization_ref
    ∷ optional (codes "advance_utilized_amount") number x.advance_utilized_amount
    ∷ optional (codes "advance_balance_amount") number x.advance_balance_amount
    ∷ optional (codes "approval_status") text x.approval_status
    ∷ optional (codes "approval_remarks") text x.approval_remarks
    ∷ optional (codes "gl_posting_status") text x.gl_posting_status
    ∷ optional (codes "posting_reference_no") text x.posting_reference_no
    ∷ optional (codes "created_by") text x.created_by
    ∷ always (codes "created_at") (instant x.created_at)
    ∷ optional (codes "last_updated_by") text x.last_updated_by
    ∷ optional (codes "last_updated_at") instant x.last_updated_at
    ∷ optional (codes "approved_by") text x.approved_by
    ∷ optional (codes "approved_at") instant x.approved_at
    ∷ optional (codes "posted_by") text x.posted_by
    ∷ optional (codes "posted_at") instant x.posted_at
    ∷ always (codes "is_active") (flag x.is_active)
    ∷ (codes "allocations", unless_no_objects (objects receipt_allocation_fields x.allocations))
    ∷ []

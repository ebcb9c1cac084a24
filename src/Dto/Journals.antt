-- ===== src/Dto/Journals.antt =====
-- internal/dto/finance/types.go: JournalEntry and its lines.
use frego_finance.Prelude.{ℕ, Bool, Option, List, [], ◌∷◌, Text, codes}
use frego_finance.Context.{Uuid}
use frego_finance.Dto.Wire.{
  Field, always, flag, instant, number, objects, optional, text, unless_no_objects, uuid,
}

pub record JournalLine : Type 0 where
  pub id : Uuid
  pub header_id : Uuid
  pub line_no : ℕ
  pub gl_account_id : Uuid
  pub party_id : Option Uuid
  pub job_id : Option Uuid
  pub branch_id : Option Uuid
  pub debit_amount : Option ℕ
  pub credit_amount : Option ℕ
  pub narration : Option Text
  pub created_at : ℕ
  pub created_by : Option Text
  pub modified_at : Option ℕ
  pub modified_by : Option Text
  pub is_active : Bool

unfoldable pub journal_line_fields : JournalLine → List Field
journal_line_fields x =
    always (codes "id") (uuid x.id)
    ∷ always (codes "header_id") (uuid x.header_id)
    ∷ always (codes "line_no") (number x.line_no)
    ∷ always (codes "gl_account_id") (uuid x.gl_account_id)
    ∷ optional (codes "party_id") uuid x.party_id
    ∷ optional (codes "job_id") uuid x.job_id
    ∷ optional (codes "branch_id") uuid x.branch_id
    ∷ optional (codes "debit_amount") number x.debit_amount
    ∷ optional (codes "credit_amount") number x.credit_amount
    ∷ optional (codes "narration") text x.narration
    ∷ always (codes "created_at") (instant x.created_at)
    ∷ optional (codes "created_by") text x.created_by
    ∷ optional (codes "modified_at") instant x.modified_at
    ∷ optional (codes "modified_by") text x.modified_by
    ∷ always (codes "is_active") (flag x.is_active)
    ∷ []

pub record JournalEntry : Type 0 where
  pub id : Uuid
  pub journal_no : Text
  pub journal_date : ℕ
  pub description : Option Text
  pub source_module : Option Text
  pub source_document_type : Option Text
  pub source_document_id : Option Uuid
  pub currency_code : Option Text
  pub exchange_rate : Option ℕ
  pub total_debit : Option ℕ
  pub total_credit : Option ℕ
  pub status : Option Text
  pub posted_at : Option ℕ
  pub posted_by : Option Text
  pub created_at : ℕ
  pub created_by : Option Text
  pub modified_at : Option ℕ
  pub modified_by : Option Text
  pub is_active : Bool
  pub lines : List JournalLine

unfoldable pub journal_entry_fields : JournalEntry → List Field
unfolding objects journal_line_fields
journal_entry_fields x =
    always (codes "id") (uuid x.id)
    ∷ always (codes "journal_no") (text x.journal_no)
    ∷ always (codes "journal_date") (instant x.journal_date)
    ∷ optional (codes "description") text x.description
    ∷ optional (codes "source_module") text x.source_module
    ∷ optional (codes "source_document_type") text x.source_document_type
    ∷ optional (codes "source_document_id") uuid x.source_document_id
    ∷ optional (codes "currency_code") text x.currency_code
    ∷ optional (codes "exchange_rate") number x.exchange_rate
    ∷ optional (codes "total_debit") number x.total_debit
    ∷ optional (codes "total_credit") number x.total_credit
    ∷ optional (codes "status") text x.status
    ∷ optional (codes "posted_at") instant x.posted_at
    ∷ optional (codes "posted_by") text x.posted_by
    ∷ always (codes "created_at") (instant x.created_at)
    ∷ optional (codes "created_by") text x.created_by
    ∷ optional (codes "modified_at") instant x.modified_at
    ∷ optional (codes "modified_by") text x.modified_by
    ∷ always (codes "is_active") (flag x.is_active)
    ∷ (codes "lines", unless_no_objects (objects journal_line_fields x.lines))
    ∷ []

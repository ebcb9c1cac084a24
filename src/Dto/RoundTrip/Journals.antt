-- ===== src/Dto/RoundTrip/Journals.antt =====
-- Reading journal entries and their lines back from their JSON objects, each field by
-- the name of its tag.
use frego_finance.Prelude.{◌≡◌, refl, true, false, [], nat_eq, text_beq, text_eq, contains, codes}
use frego_finance.Dto.Wire.{Members, no_objects, encode}
use frego_finance.Dto.Members.{
  member_at, names, are_distinct, encode-IsFound, text_in, number_in, instant_in, uuid_in, flag_in,
  array_in, or_else, read_text, read_number, read_instant, read_uuid, read_all, read_some_array,
}
use frego_finance.Dto.Journals.{
  JournalLine, JournalEntry, journal_line_fields, journal_entry_fields,
}

abbrev pub read_journal_line : Members → JournalLine
read_journal_line m = record {
  id = or_else [] (uuid_in (member_at (codes "id") m));
  header_id = or_else [] (uuid_in (member_at (codes "header_id") m));
  line_no = or_else 0 (number_in (member_at (codes "line_no") m));
  gl_account_id = or_else [] (uuid_in (member_at (codes "gl_account_id") m));
  party_id = uuid_in (member_at (codes "party_id") m);
  job_id = uuid_in (member_at (codes "job_id") m);
  branch_id = uuid_in (member_at (codes "branch_id") m);
  debit_amount = number_in (member_at (codes "debit_amount") m);
  credit_amount = number_in (member_at (codes "credit_amount") m);
  narration = text_in (member_at (codes "narration") m);
  created_at = or_else 0 (instant_in (member_at (codes "created_at") m));
  created_by = text_in (member_at (codes "created_by") m);
  modified_at = instant_in (member_at (codes "modified_at") m);
  modified_by = text_in (member_at (codes "modified_by") m);
  is_active = or_else false (flag_in (member_at (codes "is_active") m));
}

journal_line_fields-distinct :
    (x : JournalLine) → are_distinct (names (journal_line_fields x)) ≡ true
unfolding journal_line_fields are_distinct contains text_beq
journal_line_fields-distinct x = refl

pub read_journal_line-encode :
    (x : JournalLine) → read_journal_line (encode (journal_line_fields x)) ≡ x
unfolding journal_line_fields
read_journal_line-encode x =
    let e = encode-IsFound (journal_line_fields x) (journal_line_fields-distinct x) in
    λ i. record {
      id = or_else [] (uuid_in (e 0 i));
      header_id = or_else [] (uuid_in (e 1 i));
      line_no = or_else 0 (number_in (e 2 i));
      gl_account_id = or_else [] (uuid_in (e 3 i));
      party_id = read_uuid x.party_id (e 4) i;
      job_id = read_uuid x.job_id (e 5) i;
      branch_id = read_uuid x.branch_id (e 6) i;
      debit_amount = read_number x.debit_amount (e 7) i;
      credit_amount = read_number x.credit_amount (e 8) i;
      narration = read_text x.narration (e 9) i;
      created_at = or_else 0 (instant_in (e 10 i));
      created_by = read_text x.created_by (e 11) i;
      modified_at = read_instant x.modified_at (e 12) i;
      modified_by = read_text x.modified_by (e 13) i;
      is_active = or_else false (flag_in (e 14 i));
    }

abbrev pub read_journal_entry : Members → JournalEntry
read_journal_entry m = record {
  id = or_else [] (uuid_in (member_at (codes "id") m));
  journal_no = or_else [] (text_in (member_at (codes "journal_no") m));
  journal_date = or_else 0 (instant_in (member_at (codes "journal_date") m));
  description = text_in (member_at (codes "description") m);
  source_module = text_in (member_at (codes "source_module") m);
  source_document_type = text_in (member_at (codes "source_document_type") m);
  source_document_id = uuid_in (member_at (codes "source_document_id") m);
  currency_code = text_in (member_at (codes "currency_code") m);
  exchange_rate = number_in (member_at (codes "exchange_rate") m);
  total_debit = number_in (member_at (codes "total_debit") m);
  total_credit = number_in (member_at (codes "total_credit") m);
  status = text_in (member_at (codes "status") m);
  posted_at = instant_in (member_at (codes "posted_at") m);
  posted_by = text_in (member_at (codes "posted_by") m);
  created_at = or_else 0 (instant_in (member_at (codes "created_at") m));
  created_by = text_in (member_at (codes "created_by") m);
  modified_at = instant_in (member_at (codes "modified_at") m);
  modified_by = text_in (member_at (codes "modified_by") m);
  is_active = or_else false (flag_in (member_at (codes "is_active") m));
  lines = read_all read_journal_line (or_else no_objects (array_in (member_at (codes "lines") m)));
}

journal_entry_fields-distinct :
    (x : JournalEntry) → are_distinct (names (journal_entry_fields x)) ≡ true
unfolding journal_entry_fields are_distinct contains text_beq
journal_entry_fields-distinct x = refl

pub read_journal_entry-encode :
    (x : JournalEntry) → read_journal_entry (encode (journal_entry_fields x)) ≡ x
unfolding journal_entry_fields
read_journal_entry-encode x =
    let e = encode-IsFound (journal_entry_fields x) (journal_entry_fields-distinct x) in
    λ i. record {
      id = or_else [] (uuid_in (e 0 i));
      journal_no = or_else [] (text_in (e 1 i));
      journal_date = or_else 0 (instant_in (e 2 i));
      description = read_text x.description (e 3) i;
      source_module = read_text x.source_module (e 4) i;
      source_document_type = read_text x.source_document_type (e 5) i;
      source_document_id = read_uuid x.source_document_id (e 6) i;
      currency_code = read_text x.currency_code (e 7) i;
      exchange_rate = read_number x.exchange_rate (e 8) i;
      total_debit = read_number x.total_debit (e 9) i;
      total_credit = read_number x.total_credit (e 10) i;
      status = read_text x.status (e 11) i;
      posted_at = read_instant x.posted_at (e 12) i;
      posted_by = read_text x.posted_by (e 13) i;
      created_at = or_else 0 (instant_in (e 14 i));
      created_by = read_text x.created_by (e 15) i;
      modified_at = read_instant x.modified_at (e 16) i;
      modified_by = read_text x.modified_by (e 17) i;
      is_active = or_else false (flag_in (e 18 i));
      lines =
          read_some_array read_journal_line journal_line_fields read_journal_line-encode x.lines
            (e 19) i;
    }

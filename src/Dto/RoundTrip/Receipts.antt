-- ===== src/Dto/RoundTrip/Receipts.antt =====
-- Reading receipts and their allocations back from their JSON objects, each field by
-- the name of its tag.
use frego_finance.Prelude.{◌≡◌, refl, true, false, [], nat_eq, text_beq, text_eq, contains, codes}
use frego_finance.Dto.Wire.{Members, no_objects, encode}
use frego_finance.Dto.Members.{
  member_at, names, are_distinct, encode-IsFound, text_in, number_in, instant_in, uuid_in, flag_in,
  array_in, or_else, read_text, read_number, read_instant, read_uuid, read_flag, read_all,
  read_some_array,
}
use frego_finance.Dto.Receipts.{
  ReceiptAllocation, Receipt, receipt_allocation_fields, receipt_fields,
}

abbrev pub read_receipt_allocation : Members → ReceiptAllocation
read_receipt_allocation m = record {
  id = or_else [] (uuid_in (member_at (codes "id") m));
  receipt_id = or_else [] (uuid_in (member_at (codes "receipt_id") m));
  line_no = or_else 0 (number_in (member_at (codes "line_no") m));
  invoice_id = uuid_in (member_at (codes "invoice_id") m);
  invoice_no_snapshot = text_in (member_at (codes "invoice_no_snapshot") m);
  invoice_date_snapshot = instant_in (member_at (codes "invoice_date_snapshot") m);
  invoice_amount = number_in (member_at (codes "invoice_amount") m);
  outstanding_amount = number_in (member_at (codes "outstanding_amount") m);
  allocated_amount = number_in (member_at (codes "allocated_amount") m);
  created_at = or_else 0 (instant_in (member_at (codes "created_at") m));
  created_by = text_in (member_at (codes "created_by") m);
  modified_at = instant_in (member_at (codes "modified_at") m);
  modified_by = text_in (member_at (codes "modified_by") m);
  is_active = or_else false (flag_in (member_at (codes "is_active") m));
}

receipt_allocation_fields-distinct :
    (x : ReceiptAllocation) → are_distinct (names (receipt_allocation_fields x)) ≡ true
unfolding receipt_allocation_fields are_distinct contains text_beq
receipt_allocation_fields-distinct x = refl

pub read_receipt_allocation-encode :
    (x : ReceiptAllocation) → read_receipt_allocation (encode (receipt_allocation_fields x)) ≡ x
unfolding receipt_allocation_fields
read_receipt_allocation-encode x =
    let e = encode-IsFound (receipt_allocation_fields x) (receipt_allocation_fields-distinct x) in
    λ i. record {
      id = or_else [] (uuid_in (e 0 i));
      receipt_id = or_else [] (uuid_in (e 1 i));
      line_no = or_else 0 (number_in (e 2 i));
      invoice_id = read_uuid x.invoice_id (e 3) i;
      invoice_no_snapshot = read_text x.invoice_no_snapshot (e 4) i;
      invoice_date_snapshot = read_instant x.invoice_date_snapshot (e 5) i;
      invoice_amount = read_number x.invoice_amount (e 6) i;
      outstanding_amount = read_number x.outstanding_amount (e 7) i;
      allocated_amount = read_number x.allocated_amount (e 8) i;
      created_at = or_else 0 (instant_in (e 9 i));
      created_by = read_text x.created_by (e 10) i;
      modified_at = read_instant x.modified_at (e 11) i;
      modified_by = read_text x.modified_by (e 12) i;
      is_active = or_else false (flag_in (e 13 i));
    }

abbrev pub read_receipt : Members → Receipt
read_receipt m = record {
  id = or_else [] (uuid_in (member_at (codes "id") m));
  receipt_no = or_else [] (text_in (member_at (codes "receipt_no") m));
  receipt_type = or_else [] (text_in (member_at (codes "receipt_type") m));
  receipt_date = or_else 0 (instant_in (member_at (codes "receipt_date") m));
  customer_id = or_else [] (uuid_in (member_at (codes "customer_id") m));
  currency_code = or_else [] (text_in (member_at (codes "currency_code") m));
  exchange_rate = number_in (member_at (codes "exchange_rate") m);
  payment_mode_id = number_in (member_at (codes "payment_mode_id") m);
  bank_account_id = uuid_in (member_at (codes "bank_account_id") m);
  cheque_txn_no = text_in (member_at (codes "cheque_txn_no") m);
  payment_date = instant_in (member_at (codes "payment_date") m);
  receipt_reference = text_in (member_at (codes "receipt_reference") m);
  supporting_documents = text_in (member_at (codes "supporting_documents") m);
  received_amount_customer = number_in (member_at (codes "received_amount_customer") m);
  amount_in_base_currency = number_in (member_at (codes "amount_in_base_currency") m);
  receipt_purpose = text_in (member_at (codes "receipt_purpose") m);
  remarks = text_in (member_at (codes "remarks") m);
  total_allocated_amount = number_in (member_at (codes "total_allocated_amount") m);
  unallocated_amount = number_in (member_at (codes "unallocated_amount") m);
  advance_carry_forward_flag = flag_in (member_at (codes "advance_carry_forward_flag") m);
  advance_reference_no = text_in (member_at (codes "advance_reference_no") m);
  advance_amount_customer = number_in (member_at (codes "advance_amount_customer") m);
  advance_amount_base = number_in (member_at (codes "advance_amount_base") m);
  advance_job_or_enquiry = text_in (member_at (codes "advance_job_or_enquiry") m);
  advance_utilization_status = text_in (member_at (codes "advance_utilization_status") m);
  advance_utilization_ref = text_in (member_at (codes "advance_utilization_ref") m);
  advance_utilized_amount = number_in (member_at (codes "advance_utilized_amount") m);
  advance_balance_amount = number_in (member_at (codes "advance_balance_amount") m);
  approval_status = text_in (member_at (codes "approval_status") m);
  approval_remarks = text_in (member_at (codes "approval_remarks") m);
  gl_posting_status = text_in (member_at (codes "gl_posting_status") m);
  posting_reference_no = text_in (member_at (codes "posting_reference_no") m);
  created_by = text_in (member_at (codes "created_by") m);
  created_at = or_else 0 (instant_in (member_at (codes "created_at") m));
  last_updated_by = text_in (member_at (codes "last_updated_by") m);
  last_updated_at = instant_in (member_at (codes "last_updated_at") m);
  approved_by = text_in (member_at (codes "approved_by") m);
  approved_at = instant_in (member_at (codes "approved_at") m);
  posted_by = text_in (member_at (codes "posted_by") m);
  posted_at = instant_in (member_at (codes "posted_at") m);
  is_active = or_else false (flag_in (member_at (codes "is_active") m));
  allocations =
      read_all read_receipt_allocation
        (or_else no_objects (array_in (member_at (codes "allocations") m)));
}

receipt_fields-distinct : (x : Receipt) → are_distinct (names (receipt_fields x)) ≡ true
unfolding receipt_fields are_distinct contains text_beq
receipt_fields-distinct x = refl

pub read_receipt-encode : (x : Receipt) → read_receipt (encode (receipt_fields x)) ≡ x
unfolding receipt_fields
read_receipt-encode x =
    let e = encode-IsFound (receipt_fields x) (receipt_fields-distinct x) in
    λ i. record {
      id = or_else [] (uuid_in (e 0 i));
      receipt_no = or_else [] (text_in (e 1 i));
      receipt_type = or_else [] (text_in (e 2 i));
      receipt_date = or_else 0 (instant_in (e 3 i));
      customer_id = or_else [] (uuid_in (e 4 i));
      currency_code = or_else [] (text_in (e 5 i));
      exchange_rate = read_number x.exchange_rate (e 6) i;
      payment_mode_id = read_number x.payment_mode_id (e 7) i;
      bank_account_id = read_uuid x.bank_account_id (e 8) i;
      cheque_txn_no = read_text x.cheque_txn_no (e 9) i;
      payment_date = read_instant x.payment_date (e 10) i;
      receipt_reference = read_text x.receipt_reference (e 11) i;
      supporting_documents = read_text x.supporting_documents (e 12) i;
      received_amount_customer = read_number x.received_amount_customer (e 13) i;
      amount_in_base_currency = read_number x.amount_in_base_currency (e 14) i;
      receipt_purpose = read_text x.receipt_purpose (e 15) i;
      remarks = read_text x.remarks (e 16) i;
      total_allocated_amount = read_number x.total_allocated_amount (e 17) i;
      unallocated_amount = read_number x.unallocated_amount (e 18) i;
      advance_carry_forward_flag = read_flag x.advance_carry_forward_flag (e 19) i;
      advance_reference_no = read_text x.advance_reference_no (e 20) i;
      advance_amount_customer = read_number x.advance_amount_customer (e 21) i;
      advance_amount_base = read_number x.advance_amount_base (e 22) i;
      advance_job_or_enquiry = read_text x.advance_job_or_enquiry (e 23) i;
      advance_utilization_status = read_text x.advance_utilization_status (e 24) i;
      advance_utilization_ref = read_text x.advance_utilization_ref (e 25) i;
      advance_utilized_amount = read_number x.advance_utilized_amount (e 26) i;
      advance_balance_amount = read_number x.advance_balance_amount (e 27) i;
      approval_status = read_text x.approval_status (e 28) i;
      approval_remarks = read_text x.approval_remarks (e 29) i;
      gl_posting_status = read_text x.gl_posting_status (e 30) i;
      posting_reference_no = read_text x.posting_reference_no (e 31) i;
      created_by = read_text x.created_by (e 32) i;
      created_at = or_else 0 (instant_in (e 33 i));
      last_updated_by = read_text x.last_updated_by (e 34) i;
      last_updated_at = read_instant x.last_updated_at (e 35) i;
      approved_by = read_text x.approved_by (e 36) i;
      approved_at = read_instant x.approved_at (e 37) i;
      posted_by = read_text x.posted_by (e 38) i;
      posted_at = read_instant x.posted_at (e 39) i;
      is_active = or_else false (flag_in (e 40 i));
      allocations =
          read_some_array read_receipt_allocation receipt_allocation_fields
            read_receipt_allocation-encode x.allocations (e 41) i;
    }

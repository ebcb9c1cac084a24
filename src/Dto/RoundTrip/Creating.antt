-- ===== src/Dto/RoundTrip/Creating.antt =====
-- Reading the requests that create documents back from their JSON objects, each field by
-- the name of its tag.
use frego_finance.Prelude.{◌≡◌, refl, true, [], nat_eq, text_beq, text_eq, contains, codes}
use frego_finance.Dto.Wire.{Members, no_objects, encode}
use frego_finance.Dto.Members.{
  member_at, names, are_distinct, encode-IsFound, text_in, number_in, array_in, or_else, read_text,
  read_number, read_all, read_array, read_some_array,
}
use frego_finance.Dto.Creating.{
  CreateInvoiceLine, CreateInvoiceRequest, CreateReceiptAllocation, CreateReceiptRequest,
  create_invoice_line_fields, create_invoice_request_fields, create_receipt_allocation_fields,
  create_receipt_request_fields,
}

abbrev pub read_create_invoice_line : Members → CreateInvoiceLine
read_create_invoice_line m = record {
  line_no = or_else 0 (number_in (member_at (codes "line_no") m));
  invoice_type_code = text_in (member_at (codes "invoice_type_code") m);
  item_description = or_else [] (text_in (member_at (codes "item_description") m));
  item_code = text_in (member_at (codes "item_code") m);
  quantity = number_in (member_at (codes "quantity") m);
  unit_price = number_in (member_at (codes "unit_price") m);
  amount_without_tax = number_in (member_at (codes "amount_without_tax") m);
  tax_code_id = text_in (member_at (codes "tax_code_id") m);
  tax_rate_percent = number_in (member_at (codes "tax_rate_percent") m);
  tax_amount = number_in (member_at (codes "tax_amount") m);
  line_notes = text_in (member_at (codes "line_notes") m);
}

create_invoice_line_fields-distinct :
    (x : CreateInvoiceLine) → are_distinct (names (create_invoice_line_fields x)) ≡ true
unfolding create_invoice_line_fields are_distinct contains text_beq
create_invoice_line_fields-distinct x = refl

pub read_create_invoice_line-encode :
    (x : CreateInvoiceLine) → read_create_invoice_line (encode (create_invoice_line_fields x)) ≡ x
unfolding create_invoice_line_fields
read_create_invoice_line-encode x =
    let e = encode-IsFound (create_invoice_line_fields x) (create_invoice_line_fields-distinct x) in
    λ i. record {
      line_no = or_else 0 (number_in (e 0 i));
      invoice_type_code = read_text x.invoice_type_code (e 1) i;
      item_description = or_else [] (text_in (e 2 i));
      item_code = read_text x.item_code (e 3) i;
      quantity = read_number x.quantity (e 4) i;
      unit_price = read_number x.unit_price (e 5) i;
      amount_without_tax = read_number x.amount_without_tax (e 6) i;
      tax_code_id = read_text x.tax_code_id (e 7) i;
      tax_rate_percent = read_number x.tax_rate_percent (e 8) i;
      tax_amount = read_number x.tax_amount (e 9) i;
      line_notes = read_text x.line_notes (e 10) i;
    }

abbrev pub read_create_invoice_request : Members → CreateInvoiceRequest
read_create_invoice_request m = record {
  invoice_no = or_else [] (text_in (member_at (codes "invoice_no") m));
  invoice_type = or_else [] (text_in (member_at (codes "invoice_type") m));
  invoice_date = or_else [] (text_in (member_at (codes "invoice_date") m));
  customer_id = or_else [] (text_in (member_at (codes "customer_id") m));
  job_id = text_in (member_at (codes "job_id") m);
  currency_code = or_else [] (text_in (member_at (codes "currency_code") m));
  exchange_rate = number_in (member_at (codes "exchange_rate") m);
  payment_term_code = text_in (member_at (codes "payment_term_code") m);
  customer_po_number = text_in (member_at (codes "customer_po_number") m);
  sales_executive_id = text_in (member_at (codes "sales_executive_id") m);
  notes_operations = text_in (member_at (codes "notes_operations") m);
  notes_finance = text_in (member_at (codes "notes_finance") m);
  remarks = text_in (member_at (codes "remarks") m);
  lines =
      read_all read_create_invoice_line
        (or_else no_objects (array_in (member_at (codes "lines") m)));
}

create_invoice_request_fields-distinct :
    (x : CreateInvoiceRequest) → are_distinct (names (create_invoice_request_fields x)) ≡ true
unfolding create_invoice_request_fields are_distinct contains text_beq
create_invoice_request_fields-distinct x = refl

pub read_create_invoice_request-encode :
    (x : CreateInvoiceRequest)
    → read_create_invoice_request (encode (create_invoice_request_fields x)) ≡ x
unfolding create_invoice_request_fields
read_create_invoice_request-encode x =
    let e =
      encode-IsFound (create_invoice_request_fields x) (create_invoice_request_fields-distinct x) in
    λ i. record {
      invoice_no = or_else [] (text_in (e 0 i));
      invoice_type = or_else [] (text_in (e 1 i));
      invoice_date = or_else [] (text_in (e 2 i));
      customer_id = or_else [] (text_in (e 3 i));
      job_id = read_text x.job_id (e 4) i;
      currency_code = or_else [] (text_in (e 5 i));
      exchange_rate = read_number x.exchange_rate (e 6) i;
      payment_term_code = read_text x.payment_term_code (e 7) i;
      customer_po_number = read_text x.customer_po_number (e 8) i;
      sales_executive_id = read_text x.sales_executive_id (e 9) i;
      notes_operations = read_text x.notes_operations (e 10) i;
      notes_finance = read_text x.notes_finance (e 11) i;
      remarks = read_text x.remarks (e 12) i;
      lines =
          read_array read_create_invoice_line create_invoice_line_fields
            read_create_invoice_line-encode x.lines (e 13) i;
    }

abbrev pub read_create_receipt_allocation : Members → CreateReceiptAllocation
read_create_receipt_allocation m = record {
  line_no = or_else 0 (number_in (member_at (codes "line_no") m));
  invoice_id = or_else [] (text_in (member_at (codes "invoice_id") m));
  allocated_amount = or_else 0 (number_in (member_at (codes "allocated_amount") m));
}

create_receipt_allocation_fields-distinct :
    (x : CreateReceiptAllocation) → are_distinct (names (create_receipt_allocation_fields x)) ≡ true
unfolding create_receipt_allocation_fields are_distinct contains text_beq
create_receipt_allocation_fields-distinct x = refl

pub read_create_receipt_allocation-encode :
    (x : CreateReceiptAllocation)
    → read_create_receipt_allocation (encode (create_receipt_allocation_fields x)) ≡ x
unfolding create_receipt_allocation_fields
read_create_receipt_allocation-encode x =
    let e =
      encode-IsFound (create_receipt_allocation_fields x)
        (create_receipt_allocation_fields-distinct x) in
    λ i. record {
      line_no = or_else 0 (number_in (e 0 i));
      invoice_id = or_else [] (text_in (e 1 i));
      allocated_amount = or_else 0 (number_in (e 2 i));
    }

abbrev pub read_create_receipt_request : Members → CreateReceiptRequest
read_create_receipt_request m = record {
  receipt_no = or_else [] (text_in (member_at (codes "receipt_no") m));
  receipt_type = or_else [] (text_in (member_at (codes "receipt_type") m));
  receipt_date = or_else [] (text_in (member_at (codes "receipt_date") m));
  customer_id = or_else [] (text_in (member_at (codes "customer_id") m));
  currency_code = or_else [] (text_in (member_at (codes "currency_code") m));
  exchange_rate = number_in (member_at (codes "exchange_rate") m);
  payment_mode_id = number_in (member_at (codes "payment_mode_id") m);
  bank_account_id = text_in (member_at (codes "bank_account_id") m);
  cheque_txn_no = text_in (member_at (codes "cheque_txn_no") m);
  received_amount_customer = or_else 0 (number_in (member_at (codes "received_amount_customer") m));
  receipt_purpose = text_in (member_at (codes "receipt_purpose") m);
  remarks = text_in (member_at (codes "remarks") m);
  allocations =
      read_all read_create_receipt_allocation
        (or_else no_objects (array_in (member_at (codes "allocations") m)));
}

create_receipt_request_fields-distinct :
    (x : CreateReceiptRequest) → are_distinct (names (create_receipt_request_fields x)) ≡ true
unfolding create_receipt_request_fields are_distinct contains text_beq
create_receipt_request_fields-distinct x = refl

pub read_create_receipt_request-encode :
    (x : CreateReceiptRequest)
    → read_create_receipt_request (encode (create_receipt_request_fields x)) ≡ x
unfolding create_receipt_request_fields
read_create_receipt_request-encode x =
    let e =
      encode-IsFound (create_receipt_request_fields x) (create_receipt_request_fields-distinct x) in
    λ i. record {
      receipt_no = or_else [] (text_in (e 0 i));
      receipt_type = or_else [] (text_in (e 1 i));
      receipt_date = or_else [] (text_in (e 2 i));
      customer_id = or_else [] (text_in (e 3 i));
      currency_code = or_else [] (text_in (e 4 i));
      exchange_rate = read_number x.exchange_rate (e 5) i;
      payment_mode_id = read_number x.payment_mode_id (e 6) i;
      bank_account_id = read_text x.bank_account_id (e 7) i;
      cheque_txn_no = read_text x.cheque_txn_no (e 8) i;
      received_amount_customer = or_else 0 (number_in (e 9 i));
      receipt_purpose = read_text x.receipt_purpose (e 10) i;
      remarks = read_text x.remarks (e 11) i;
      allocations =
          read_some_array read_create_receipt_allocation create_receipt_allocation_fields
            read_create_receipt_allocation-encode x.allocations (e 12) i;
    }

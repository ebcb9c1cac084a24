-- ===== src/Dto/RoundTrip/Invoices.antt =====
-- Reading invoices and their lines back from their JSON objects, each field by
-- the name of its tag.
use frego_finance.Prelude.{◌≡◌, refl, true, false, [], nat_eq, text_beq, text_eq, contains, codes}
use frego_finance.Dto.Wire.{Members, no_objects, encode}
use frego_finance.Dto.Members.{
  member_at, names, are_distinct, encode-IsFound, text_in, number_in, instant_in, uuid_in, flag_in,
  array_in, or_else, read_text, read_number, read_instant, read_uuid, read_all, read_some_array,
}
use frego_finance.Dto.Invoices.{InvoiceLine, Invoice, invoice_line_fields, invoice_fields}

abbrev pub read_invoice_line : Members → InvoiceLine
read_invoice_line m = record {
  id = or_else [] (uuid_in (member_at (codes "id") m));
  invoice_id = or_else [] (uuid_in (member_at (codes "invoice_id") m));
  line_no = or_else 0 (number_in (member_at (codes "line_no") m));
  invoice_type_code = text_in (member_at (codes "invoice_type_code") m);
  item_description = or_else [] (text_in (member_at (codes "item_description") m));
  item_code = text_in (member_at (codes "item_code") m);
  quantity = number_in (member_at (codes "quantity") m);
  unit_price = number_in (member_at (codes "unit_price") m);
  amount_without_tax = number_in (member_at (codes "amount_without_tax") m);
  tax_code_id = uuid_in (member_at (codes "tax_code_id") m);
  tax_rate_percent = number_in (member_at (codes "tax_rate_percent") m);
  tax_amount = number_in (member_at (codes "tax_amount") m);
  line_total_with_tax = number_in (member_at (codes "line_total_with_tax") m);
  line_notes = text_in (member_at (codes "line_notes") m);
  created_at = or_else 0 (instant_in (member_at (codes "created_at") m));
  created_by = text_in (member_at (codes "created_by") m);
  modified_at = instant_in (member_at (codes "modified_at") m);
  modified_by = text_in (member_at (codes "modified_by") m);
  is_active = or_else false (flag_in (member_at (codes "is_active") m));
}

invoice_line_fields-distinct :
    (x : InvoiceLine) → are_distinct (names (invoice_line_fields x)) ≡ true
unfolding invoice_line_fields are_distinct contains text_beq
invoice_line_fields-distinct x = refl

pub read_invoice_line-encode :
    (x : InvoiceLine) → read_invoice_line (encode (invoice_line_fields x)) ≡ x
unfolding invoice_line_fields
read_invoice_line-encode x =
    let e = encode-IsFound (invoice_line_fields x) (invoice_line_fields-distinct x) in
    λ i. record {
      id = or_else [] (uuid_in (e 0 i));
      invoice_id = or_else [] (uuid_in (e 1 i));
      line_no = or_else 0 (number_in (e 2 i));
      invoice_type_code = read_text x.invoice_type_code (e 3) i;
      item_description = or_else [] (text_in (e 4 i));
      item_code = read_text x.item_code (e 5) i;
      quantity = read_number x.quantity (e 6) i;
      unit_price = read_number x.unit_price (e 7) i;
      amount_without_tax = read_number x.amount_without_tax (e 8) i;
      tax_code_id = read_uuid x.tax_code_id (e 9) i;
      tax_rate_percent = read_number x.tax_rate_percent (e 10) i;
      tax_amount = read_number x.tax_amount (e 11) i;
      line_total_with_tax = read_number x.line_total_with_tax (e 12) i;
      line_notes = read_text x.line_notes (e 13) i;
      created_at = or_else 0 (instant_in (e 14 i));
      created_by = read_text x.created_by (e 15) i;
      modified_at = read_instant x.modified_at (e 16) i;
      modified_by = read_text x.modified_by (e 17) i;
      is_active = or_else false (flag_in (e 18 i));
    }

abbrev pub read_invoice : Members → Invoice
read_invoice m = record {
  id = or_else [] (uuid_in (member_at (codes "id") m));
  invoice_no = or_else [] (text_in (member_at (codes "invoice_no") m));
  invoice_type = or_else [] (text_in (member_at (codes "invoice_type") m));
  invoice_date = or_else 0 (instant_in (member_at (codes "invoice_date") m));
  customer_id = or_else [] (uuid_in (member_at (codes "customer_id") m));
  job_id = uuid_in (member_at (codes "job_id") m);
  billing_address = text_in (member_at (codes "billing_address") m);
  billing_country = text_in (member_at (codes "billing_country") m);
  currency_code = or_else [] (text_in (member_at (codes "currency_code") m));
  exchange_rate = number_in (member_at (codes "exchange_rate") m);
  payment_term_code = text_in (member_at (codes "payment_term_code") m);
  customer_po_number = text_in (member_at (codes "customer_po_number") m);
  customer_po_date = instant_in (member_at (codes "customer_po_date") m);
  sales_executive_id = uuid_in (member_at (codes "sales_executive_id") m);
  subtotal_amount = number_in (member_at (codes "subtotal_amount") m);
  tax_amount = number_in (member_at (codes "tax_amount") m);
  grand_total_amount = number_in (member_at (codes "grand_total_amount") m);
  amount_in_base_currency = number_in (member_at (codes "amount_in_base_currency") m);
  advance_to_adjust = number_in (member_at (codes "advance_to_adjust") m);
  net_amount_after_advance = number_in (member_at (codes "net_amount_after_advance") m);
  profit_base_currency = number_in (member_at (codes "profit_base_currency") m);
  notes_operations = text_in (member_at (codes "notes_operations") m);
  notes_finance = text_in (member_at (codes "notes_finance") m);
  supporting_documents = text_in (member_at (codes "supporting_documents") m);
  remarks = text_in (member_at (codes "remarks") m);
  approval_status = text_in (member_at (codes "approval_status") m);
  approval_remarks = text_in (member_at (codes "approval_remarks") m);
  invoice_status = text_in (member_at (codes "invoice_status") m);
  gl_posting_status = text_in (member_at (codes "gl_posting_status") m);
  posting_reference_no = text_in (member_at (codes "posting_reference_no") m);
  created_by = text_in (member_at (codes "created_by") m);
  created_at = or_else 0 (instant_in (member_at (codes "created_at") m));
  last_updated_by = text_in (member_at (codes "last_updated_by") m);
  last_updated_at = instant_in (member_at (codes "last_updated_at") m);
  approved_by = text_in (member_at (codes "approved_by") m);
  approved_at = instant_in (member_at (codes "approved_at") m);
  posted_by = text_in (member_at (codes "posted_by") m);
  posted_at = instant_in (member_at (codes "posted_at") m);
  is_active = or_else false (flag_in (member_at (codes "is_active") m));
  lines = read_all read_invoice_line (or_else no_objects (array_in (member_at (codes "lines") m)));
}

invoice_fields-distinct : (x : Invoice) → are_distinct (names (invoice_fields x)) ≡ true
unfolding invoice_fields are_distinct contains text_beq
invoice_fields-distinct x = refl

pub read_invoice-encode : (x : Invoice) → read_invoice (encode (invoice_fields x)) ≡ x
unfolding invoice_fields
read_invoice-encode x =
    let e = encode-IsFound (invoice_fields x) (invoice_fields-distinct x) in
    λ i. record {
      id = or_else [] (uuid_in (e 0 i));
      invoice_no = or_else [] (text_in (e 1 i));
      invoice_type = or_else [] (text_in (e 2 i));
      invoice_date = or_else 0 (instant_in (e 3 i));
      customer_id = or_else [] (uuid_in (e 4 i));
      job_id = read_uuid x.job_id (e 5) i;
      billing_address = read_text x.billing_address (e 6) i;
      billing_country = read_text x.billing_country (e 7) i;
      currency_code = or_else [] (text_in (e 8 i));
      exchange_rate = read_number x.exchange_rate (e 9) i;
      payment_term_code = read_text x.payment_term_code (e 10) i;
      customer_po_number = read_text x.customer_po_number (e 11) i;
      customer_po_date = read_instant x.customer_po_date (e 12) i;
      sales_executive_id = read_uuid x.sales_executive_id (e 13) i;
      subtotal_amount = read_number x.subtotal_amount (e 14) i;
      tax_amount = read_number x.tax_amount (e 15) i;
      grand_total_amount = read_number x.grand_total_amount (e 16) i;
      amount_in_base_currency = read_number x.amount_in_base_currency (e 17) i;
      advance_to_adjust = read_number x.advance_to_adjust (e 18) i;
      net_amount_after_advance = read_number x.net_amount_after_advance (e 19) i;
      profit_base_currency = read_number x.profit_base_currency (e 20) i;
      notes_operations = read_text x.notes_operations (e 21) i;
      notes_finance = read_text x.notes_finance (e 22) i;
      supporting_documents = read_text x.supporting_documents (e 23) i;
      remarks = read_text x.remarks (e 24) i;
      approval_status = read_text x.approval_status (e 25) i;
      approval_remarks = read_text x.approval_remarks (e 26) i;
      invoice_status = read_text x.invoice_status (e 27) i;
      gl_posting_status = read_text x.gl_posting_status (e 28) i;
      posting_reference_no = read_text x.posting_reference_no (e 29) i;
      created_by = read_text x.created_by (e 30) i;
      created_at = or_else 0 (instant_in (e 31 i));
      last_updated_by = read_text x.last_updated_by (e 32) i;
      last_updated_at = read_instant x.last_updated_at (e 33) i;
      approved_by = read_text x.approved_by (e 34) i;
      approved_at = read_instant x.approved_at (e 35) i;
      posted_by = read_text x.posted_by (e 36) i;
      posted_at = read_instant x.posted_at (e 37) i;
      is_active = or_else false (flag_in (e 38 i));
      lines =
          read_some_array read_invoice_line invoice_line_fields read_invoice_line-encode x.lines
            (e 39) i;
    }

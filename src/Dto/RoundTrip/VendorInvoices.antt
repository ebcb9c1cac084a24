-- ===== src/Dto/RoundTrip/VendorInvoices.antt =====
-- Reading vendor invoices and their lines back from their JSON objects, each field by
-- the name of its tag.
use frego_finance.Prelude.{◌≡◌, refl, true, false, [], nat_eq, text_beq, text_eq, contains, codes}
use frego_finance.Dto.Wire.{Members, no_objects, encode}
use frego_finance.Dto.Members.{
  member_at, names, are_distinct, encode-IsFound, text_in, number_in, instant_in, uuid_in, flag_in,
  array_in, or_else, read_text, read_number, read_instant, read_uuid, read_all, read_some_array,
}
use frego_finance.Dto.VendorInvoices.{
  VendorInvoiceLine, VendorInvoice, vendor_invoice_line_fields, vendor_invoice_fields,
}

abbrev pub read_vendor_invoice_line : Members → VendorInvoiceLine
read_vendor_invoice_line m = record {
  id = or_else [] (uuid_in (member_at (codes "id") m));
  vendor_invoice_id = or_else [] (uuid_in (member_at (codes "vendor_invoice_id") m));
  line_no = or_else 0 (number_in (member_at (codes "line_no") m));
  ops_provision_id = uuid_in (member_at (codes "ops_provision_id") m);
  item_description = or_else [] (text_in (member_at (codes "item_description") m));
  quantity = number_in (member_at (codes "quantity") m);
  unit_price = number_in (member_at (codes "unit_price") m);
  discount_amount = number_in (member_at (codes "discount_amount") m);
  tax_code_id = uuid_in (member_at (codes "tax_code_id") m);
  tax_rate_percent = number_in (member_at (codes "tax_rate_percent") m);
  tax_amount = number_in (member_at (codes "tax_amount") m);
  line_amount = number_in (member_at (codes "line_amount") m);
  expense_gl_account_id = uuid_in (member_at (codes "expense_gl_account_id") m);
  line_notes = text_in (member_at (codes "line_notes") m);
  created_at = or_else 0 (instant_in (member_at (codes "created_at") m));
  created_by = text_in (member_at (codes "created_by") m);
  modified_at = instant_in (member_at (codes "modified_at") m);
  modified_by = text_in (member_at (codes "modified_by") m);
  is_active = or_else false (flag_in (member_at (codes "is_active") m));
}

vendor_invoice_line_fields-distinct :
    (x : VendorInvoiceLine) → are_distinct (names (vendor_invoice_line_fields x)) ≡ true
unfolding vendor_invoice_line_fields are_distinct contains text_beq
vendor_invoice_line_fields-distinct x = refl

pub read_vendor_invoice_line-encode :
    (x : VendorInvoiceLine) → read_vendor_invoice_line (encode (vendor_invoice_line_fields x)) ≡ x
unfolding vendor_invoice_line_fields
read_vendor_invoice_line-encode x =
    let e = encode-IsFound (vendor_invoice_line_fields x) (vendor_invoice_line_fields-distinct x) in
    λ i. record {
      id = or_else [] (uuid_in (e 0 i));
      vendor_invoice_id = or_else [] (uuid_in (e 1 i));
      line_no = or_else 0 (number_in (e 2 i));
      ops_provision_id = read_uuid x.ops_provision_id (e 3) i;
      item_description = or_else [] (text_in (e 4 i));
      quantity = read_number x.quantity (e 5) i;
      unit_price = read_number x.unit_price (e 6) i;
      discount_amount = read_number x.discount_amount (e 7) i;
      tax_code_id = read_uuid x.tax_code_id (e 8) i;
      tax_rate_percent = read_number x.tax_rate_percent (e 9) i;
      tax_amount = read_number x.tax_amount (e 10) i;
      line_amount = read_number x.line_amount (e 11) i;
      expense_gl_account_id = read_uuid x.expense_gl_account_id (e 12) i;
      line_notes = read_text x.line_notes (e 13) i;
      created_at = or_else 0 (instant_in (e 14 i));
      created_by = read_text x.created_by (e 15) i;
      modified_at = read_instant x.modified_at (e 16) i;
      modified_by = read_text x.modified_by (e 17) i;
      is_active = or_else false (flag_in (e 18 i));
    }

abbrev pub read_vendor_invoice : Members → VendorInvoice
read_vendor_invoice m = record {
  id = or_else [] (uuid_in (member_at (codes "id") m));
  vendor_invoice_no = or_else [] (text_in (member_at (codes "vendor_invoice_no") m));
  system_invoice_no = or_else [] (text_in (member_at (codes "system_invoice_no") m));
  vendor_id = or_else [] (uuid_in (member_at (codes "vendor_id") m));
  invoice_date = or_else 0 (instant_in (member_at (codes "invoice_date") m));
  due_date = instant_in (member_at (codes "due_date") m);
  payment_term_code = text_in (member_at (codes "payment_term_code") m);
  invoice_type = text_in (member_at (codes "invoice_type") m);
  job_id = uuid_in (member_at (codes "job_id") m);
  department_cost_center_code = text_in (member_at (codes "department_cost_center_code") m);
  cost_head_gl_account_id = uuid_in (member_at (codes "cost_head_gl_account_id") m);
  asset_category_code = text_in (member_at (codes "asset_category_code") m);
  currency_code = or_else [] (text_in (member_at (codes "currency_code") m));
  exchange_rate = number_in (member_at (codes "exchange_rate") m);
  subtotal_amount = number_in (member_at (codes "subtotal_amount") m);
  tax_amount = number_in (member_at (codes "tax_amount") m);
  total_amount = number_in (member_at (codes "total_amount") m);
  amount_base_currency = number_in (member_at (codes "amount_base_currency") m);
  provision_amount = number_in (member_at (codes "provision_amount") m);
  provision_difference = number_in (member_at (codes "provision_difference") m);
  notes_operations = text_in (member_at (codes "notes_operations") m);
  vendor_supporting_documents = text_in (member_at (codes "vendor_supporting_documents") m);
  internal_comments = text_in (member_at (codes "internal_comments") m);
  approval_status = text_in (member_at (codes "approval_status") m);
  approval_remarks = text_in (member_at (codes "approval_remarks") m);
  reversal_reference = text_in (member_at (codes "reversal_reference") m);
  invoice_status = text_in (member_at (codes "invoice_status") m);
  gl_posting_reference = text_in (member_at (codes "gl_posting_reference") m);
  gl_posting_status = text_in (member_at (codes "gl_posting_status") m);
  created_by = text_in (member_at (codes "created_by") m);
  created_at = or_else 0 (instant_in (member_at (codes "created_at") m));
  last_updated_by = text_in (member_at (codes "last_updated_by") m);
  last_updated_at = instant_in (member_at (codes "last_updated_at") m);
  approved_by = text_in (member_at (codes "approved_by") m);
  approved_at = instant_in (member_at (codes "approved_at") m);
  posted_by = text_in (member_at (codes "posted_by") m);
  posted_at = instant_in (member_at (codes "posted_at") m);
  is_active = or_else false (flag_in (member_at (codes "is_active") m));
  lines =
      read_all read_vendor_invoice_line
        (or_else no_objects (array_in (member_at (codes "lines") m)));
}

vendor_invoice_fields-distinct :
    (x : VendorInvoice) → are_distinct (names (vendor_invoice_fields x)) ≡ true
unfolding vendor_invoice_fields are_distinct contains text_beq
vendor_invoice_fields-distinct x = refl

pub read_vendor_invoice-encode :
    (x : VendorInvoice) → read_vendor_invoice (encode (vendor_invoice_fields x)) ≡ x
unfolding vendor_invoice_fields
read_vendor_invoice-encode x =
    let e = encode-IsFound (vendor_invoice_fields x) (vendor_invoice_fields-distinct x) in
    λ i. record {
      id = or_else [] (uuid_in (e 0 i));
      vendor_invoice_no = or_else [] (text_in (e 1 i));
      system_invoice_no = or_else [] (text_in (e 2 i));
      vendor_id = or_else [] (uuid_in (e 3 i));
      invoice_date = or_else 0 (instant_in (e 4 i));
      due_date = read_instant x.due_date (e 5) i;
      payment_term_code = read_text x.payment_term_code (e 6) i;
      invoice_type = read_text x.invoice_type (e 7) i;
      job_id = read_uuid x.job_id (e 8) i;
      department_cost_center_code = read_text x.department_cost_center_code (e 9) i;
      cost_head_gl_account_id = read_uuid x.cost_head_gl_account_id (e 10) i;
      asset_category_code = read_text x.asset_category_code (e 11) i;
      currency_code = or_else [] (text_in (e 12 i));
      exchange_rate = read_number x.exchange_rate (e 13) i;
      subtotal_amount = read_number x.subtotal_amount (e 14) i;
      tax_amount = read_number x.tax_amount (e 15) i;
      total_amount = read_number x.total_amount (e 16) i;
      amount_base_currency = read_number x.amount_base_currency (e 17) i;
      provision_amount = read_number x.provision_amount (e 18) i;
      provision_difference = read_number x.provision_difference (e 19) i;
      notes_operations = read_text x.notes_operations (e 20) i;
      vendor_supporting_documents = read_text x.vendor_supporting_documents (e 21) i;
      internal_comments = read_text x.internal_comments (e 22) i;
      approval_status = read_text x.approval_status (e 23) i;
      approval_remarks = read_text x.approval_remarks (e 24) i;
      reversal_reference = read_text x.reversal_reference (e 25) i;
      invoice_status = read_text x.invoice_status (e 26) i;
      gl_posting_reference = read_text x.gl_posting_reference (e 27) i;
      gl_posting_status = read_text x.gl_posting_status (e 28) i;
      created_by = read_text x.created_by (e 29) i;
      created_at = or_else 0 (instant_in (e 30 i));
      last_updated_by = read_text x.last_updated_by (e 31) i;
      last_updated_at = read_instant x.last_updated_at (e 32) i;
      approved_by = read_text x.approved_by (e 33) i;
      approved_at = read_instant x.approved_at (e 34) i;
      posted_by = read_text x.posted_by (e 35) i;
      posted_at = read_instant x.posted_at (e 36) i;
      is_active = or_else false (flag_in (e 37 i));
      lines =
          read_some_array read_vendor_invoice_line vendor_invoice_line_fields
            read_vendor_invoice_line-encode x.lines (e 38) i;
    }

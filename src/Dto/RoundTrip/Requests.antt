-- ===== src/Dto/RoundTrip/Requests.antt =====
-- Reading the other requests and the responses back from their JSON objects, each field by
-- the name of its tag.
use frego_finance.Prelude.{◌≡◌, refl, true, [], nat_eq, text_beq, text_eq, contains, codes}
use frego_finance.Context.Claims.{end}
use frego_finance.Dto.Wire.{Members, no_objects, encode}
use frego_finance.Dto.Members.{
  member_at, names, are_distinct, encode-IsFound, text_in, number_in, array_in, entries_in, or_else,
  read_text, read_all, read_array, read_entries,
}
use frego_finance.Dto.Requests.{
  ListInvoicesRequest, ListInvoicesResponse, ListReceiptsRequest, ListReceiptsResponse,
  ApproveInvoiceRequest, PostInvoiceRequest, ErrorResponse, list_invoices_request_fields,
  list_invoices_response_fields, list_receipts_request_fields, list_receipts_response_fields,
  approve_invoice_request_fields, post_invoice_request_fields, error_response_fields,
}
use frego_finance.Dto.Invoices.{invoice_fields}
use frego_finance.Dto.RoundTrip.Invoices.{read_invoice, read_invoice-encode}
use frego_finance.Dto.Receipts.{receipt_fields}
use frego_finance.Dto.RoundTrip.Receipts.{read_receipt, read_receipt-encode}

abbrev pub read_list_invoices_request : Members → ListInvoicesRequest
read_list_invoices_request m = record {
  customer_id = text_in (member_at (codes "customer_id") m);
  status = text_in (member_at (codes "status") m);
  from_date = text_in (member_at (codes "from_date") m);
  to_date = text_in (member_at (codes "to_date") m);
  limit = or_else 0 (number_in (member_at (codes "limit") m));
  offset = or_else 0 (number_in (member_at (codes "offset") m));
}

list_invoices_request_fields-distinct :
    (x : ListInvoicesRequest) → are_distinct (names (list_invoices_request_fields x)) ≡ true
unfolding list_invoices_request_fields are_distinct contains text_beq
list_invoices_request_fields-distinct x = refl

pub read_list_invoices_request-encode :
    (x : ListInvoicesRequest)
    → read_list_invoices_request (encode (list_invoices_request_fields x)) ≡ x
unfolding list_invoices_request_fields
read_list_invoices_request-encode x =
    let e =
      encode-IsFound (list_invoices_request_fields x) (list_invoices_request_fields-distinct x) in
    λ i. record {
      customer_id = read_text x.customer_id (e 0) i;
      status = read_text x.status (e 1) i;
      from_date = read_text x.from_date (e 2) i;
      to_date = read_text x.to_date (e 3) i;
      limit = or_else 0 (number_in (e 4 i));
      offset = or_else 0 (number_in (e 5 i));
    }

abbrev pub read_list_invoices_response : Members → ListInvoicesResponse
read_list_invoices_response m = record {
  invoices = read_all read_invoice (or_else no_objects (array_in (member_at (codes "invoices") m)));
  total = or_else 0 (number_in (member_at (codes "total") m));
  limit = or_else 0 (number_in (member_at (codes "limit") m));
  offset = or_else 0 (number_in (member_at (codes "offset") m));
}

list_invoices_response_fields-distinct :
    (x : ListInvoicesResponse) → are_distinct (names (list_invoices_response_fields x)) ≡ true
unfolding list_invoices_response_fields are_distinct contains text_beq
list_invoices_response_fields-distinct x = refl

pub read_list_invoices_response-encode :
    (x : ListInvoicesResponse)
    → read_list_invoices_response (encode (list_invoices_response_fields x)) ≡ x
unfolding list_invoices_response_fields
read_list_invoices_response-encode x =
    let e =
      encode-IsFound (list_invoices_response_fields x) (list_invoices_response_fields-distinct x) in
    λ i. record {
      invoices = read_array read_invoice invoice_fields read_invoice-encode x.invoices (e 0) i;
      total = or_else 0 (number_in (e 1 i));
      limit = or_else 0 (number_in (e 2 i));
      offset = or_else 0 (number_in (e 3 i));
    }

abbrev pub read_list_receipts_request : Members → ListReceiptsRequest
read_list_receipts_request m = record {
  customer_id = text_in (member_at (codes "customer_id") m);
  from_date = text_in (member_at (codes "from_date") m);
  to_date = text_in (member_at (codes "to_date") m);
  limit = or_else 0 (number_in (member_at (codes "limit") m));
  offset = or_else 0 (number_in (member_at (codes "offset") m));
}

list_receipts_request_fields-distinct :
    (x : ListReceiptsRequest) → are_distinct (names (list_receipts_request_fields x)) ≡ true
unfolding list_receipts_request_fields are_distinct contains text_beq
list_receipts_request_fields-distinct x = refl

pub read_list_receipts_request-encode :
    (x : ListReceiptsRequest)
    → read_list_receipts_request (encode (list_receipts_request_fields x)) ≡ x
unfolding list_receipts_request_fields
read_list_receipts_request-encode x =
    let e =
      encode-IsFound (list_receipts_request_fields x) (list_receipts_request_fields-distinct x) in
    λ i. record {
      customer_id = read_text x.customer_id (e 0) i;
      from_date = read_text x.from_date (e 1) i;
      to_date = read_text x.to_date (e 2) i;
      limit = or_else 0 (number_in (e 3 i));
      offset = or_else 0 (number_in (e 4 i));
    }

abbrev pub read_list_receipts_response : Members → ListReceiptsResponse
read_list_receipts_response m = record {
  receipts = read_all read_receipt (or_else no_objects (array_in (member_at (codes "receipts") m)));
  total = or_else 0 (number_in (member_at (codes "total") m));
  limit = or_else 0 (number_in (member_at (codes "limit") m));
  offset = or_else 0 (number_in (member_at (codes "offset") m));
}

list_receipts_response_fields-distinct :
    (x : ListReceiptsResponse) → are_distinct (names (list_receipts_response_fields x)) ≡ true
unfolding list_receipts_response_fields are_distinct contains text_beq
list_receipts_response_fields-distinct x = refl

pub read_list_receipts_response-encode :
    (x : ListReceiptsResponse)
    → read_list_receipts_response (encode (list_receipts_response_fields x)) ≡ x
unfolding list_receipts_response_fields
read_list_receipts_response-encode x =
    let e =
      encode-IsFound (list_receipts_response_fields x) (list_receipts_response_fields-distinct x) in
    λ i. record {
      receipts = read_array read_receipt receipt_fields read_receipt-encode x.receipts (e 0) i;
      total = or_else 0 (number_in (e 1 i));
      limit = or_else 0 (number_in (e 2 i));
      offset = or_else 0 (number_in (e 3 i));
    }

abbrev pub read_approve_invoice_request : Members → ApproveInvoiceRequest
read_approve_invoice_request m = record {
  approval_remarks = text_in (member_at (codes "approval_remarks") m);
}

approve_invoice_request_fields-distinct :
    (x : ApproveInvoiceRequest) → are_distinct (names (approve_invoice_request_fields x)) ≡ true
unfolding approve_invoice_request_fields are_distinct contains text_beq
approve_invoice_request_fields-distinct x = refl

pub read_approve_invoice_request-encode :
    (x : ApproveInvoiceRequest)
    → read_approve_invoice_request (encode (approve_invoice_request_fields x)) ≡ x
unfolding approve_invoice_request_fields
read_approve_invoice_request-encode x =
    let e =
      encode-IsFound (approve_invoice_request_fields x)
        (approve_invoice_request_fields-distinct x) in
    λ i. record { approval_remarks = read_text x.approval_remarks (e 0) i }

abbrev pub read_post_invoice_request : Members → PostInvoiceRequest
read_post_invoice_request m = record { posting_date = text_in (member_at (codes "posting_date") m) }

post_invoice_request_fields-distinct :
    (x : PostInvoiceRequest) → are_distinct (names (post_invoice_request_fields x)) ≡ true
unfolding post_invoice_request_fields are_distinct contains text_beq
post_invoice_request_fields-distinct x = refl

pub read_post_invoice_request-encode :
    (x : PostInvoiceRequest)
    → read_post_invoice_request (encode (post_invoice_request_fields x)) ≡ x
unfolding post_invoice_request_fields
read_post_invoice_request-encode x =
    let e =
      encode-IsFound (post_invoice_request_fields x) (post_invoice_request_fields-distinct x) in
    λ i. record { posting_date = read_text x.posting_date (e 0) i }

abbrev pub read_error_response : Members → ErrorResponse
read_error_response m = record {
  code = or_else [] (text_in (member_at (codes "code") m));
  message = or_else [] (text_in (member_at (codes "message") m));
  details = or_else end (entries_in (member_at (codes "details") m));
}

error_response_fields-distinct :
    (x : ErrorResponse) → are_distinct (names (error_response_fields x)) ≡ true
unfolding error_response_fields are_distinct contains text_beq
error_response_fields-distinct x = refl

pub read_error_response-encode :
    (x : ErrorResponse) → read_error_response (encode (error_response_fields x)) ≡ x
unfolding error_response_fields
read_error_response-encode x =
    let e = encode-IsFound (error_response_fields x) (error_response_fields-distinct x) in
    λ i. record {
      code = or_else [] (text_in (e 0 i));
      message = or_else [] (text_in (e 1 i));
      details = read_entries x.details (e 2) i;
    }

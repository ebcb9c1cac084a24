-- ===== src/Tests/Dto.antt =====
-- Examples for internal/dto.
use frego_finance.Prelude.{none, some, [], ◌∷◌, codes}
use frego_finance.Dto.RoundTrip.{Dto, create_receipt_request}

-- A receipt for one invoice, with a remark and without the other optional fields.
abbrev request : Dto
request = create_receipt_request (record {
  receipt_no = codes "R-1";
  receipt_type = codes "customer";
  receipt_date = codes "2025-01-31";
  customer_id = codes "00000000-0000-0000-0000-000000000001";
  currency_code = codes "OMR";
  exchange_rate = none;
  payment_mode_id = none;
  bank_account_id = none;
  cheque_txn_no = none;
  received_amount_customer = 4636737291354636288;
  receipt_purpose = none;
  remarks = some (codes "paid");
  allocations =
      record {
        line_no = 1;
        invoice_id = codes "00000000-0000-0000-0000-000000000002";
        allocated_amount = 4636737291354636288;
      }
      ∷ [];
})

-- ===== src/Dto/RoundTrip.antt =====
-- Every struct of internal/dto beside what is read back from its JSON object by the names of the tags.
pub mod Invoices
pub mod Receipts
pub mod VendorInvoices
pub mod Journals
pub mod Creating
pub mod Requests
pub mod Tenants
use frego_finance.Prelude.{List}
use frego_finance.Dto.Wire.{Field, Members}
use frego_finance.Dto.Invoices.{InvoiceLine, Invoice, invoice_line_fields, invoice_fields}
use frego_finance.Dto.RoundTrip.Invoices.{read_invoice_line, read_invoice}
use frego_finance.Dto.Receipts.{
  ReceiptAllocation, Receipt, receipt_allocation_fields, receipt_fields,
}
use frego_finance.Dto.RoundTrip.Receipts.{read_receipt_allocation, read_receipt}
use frego_finance.Dto.VendorInvoices.{
  VendorInvoiceLine, VendorInvoice, vendor_invoice_line_fields, vendor_invoice_fields,
}
use frego_finance.Dto.RoundTrip.VendorInvoices.{read_vendor_invoice_line, read_vendor_invoice}
use frego_finance.Dto.Journals.{
  JournalLine, JournalEntry, journal_line_fields, journal_entry_fields,
}
use frego_finance.Dto.RoundTrip.Journals.{read_journal_line, read_journal_entry}
use frego_finance.Dto.Creating.{
  CreateInvoiceLine, CreateInvoiceRequest, CreateReceiptAllocation, CreateReceiptRequest,
  create_invoice_line_fields, create_invoice_request_fields, create_receipt_allocation_fields,
  create_receipt_request_fields,
}
use frego_finance.Dto.RoundTrip.Creating.{
  read_create_invoice_line, read_create_invoice_request, read_create_receipt_allocation,
  read_create_receipt_request,
}
use frego_finance.Dto.Requests.{
  ListInvoicesRequest, ListInvoicesResponse, ListReceiptsRequest, ListReceiptsResponse,
  ApproveInvoiceRequest, PostInvoiceRequest, ErrorResponse, list_invoices_request_fields,
  list_invoices_response_fields, list_receipts_request_fields, list_receipts_response_fields,
  approve_invoice_request_fields, post_invoice_request_fields, error_response_fields,
}
use frego_finance.Dto.RoundTrip.Requests.{
  read_list_invoices_request, read_list_invoices_response, read_list_receipts_request,
  read_list_receipts_response, read_approve_invoice_request, read_post_invoice_request,
  read_error_response,
}
use frego_finance.Dto.Tenants.{
  Tenant, CreateTenantRequest, CreateTenantResponse, tenant_fields, create_tenant_request_fields,
  create_tenant_response_fields,
}
use frego_finance.Dto.RoundTrip.Tenants.{
  read_tenant, read_create_tenant_request, read_create_tenant_response,
}

-- A struct of any of the types.
pub data Dto : Type 0 where
  invoice_line : InvoiceLine → Dto
  invoice : Invoice → Dto
  receipt_allocation : ReceiptAllocation → Dto
  receipt : Receipt → Dto
  vendor_invoice_line : VendorInvoiceLine → Dto
  vendor_invoice : VendorInvoice → Dto
  journal_line : JournalLine → Dto
  journal_entry : JournalEntry → Dto
  create_invoice_line : CreateInvoiceLine → Dto
  create_invoice_request : CreateInvoiceRequest → Dto
  create_receipt_allocation : CreateReceiptAllocation → Dto
  create_receipt_request : CreateReceiptRequest → Dto
  list_invoices_request : ListInvoicesRequest → Dto
  list_invoices_response : ListInvoicesResponse → Dto
  list_receipts_request : ListReceiptsRequest → Dto
  list_receipts_response : ListReceiptsResponse → Dto
  approve_invoice_request : ApproveInvoiceRequest → Dto
  post_invoice_request : PostInvoiceRequest → Dto
  error_response : ErrorResponse → Dto
  tenant : Tenant → Dto
  create_tenant_request : CreateTenantRequest → Dto
  create_tenant_response : CreateTenantResponse → Dto

pub data Kind : Type 0 where
  a_invoice_line : Kind
  a_invoice : Kind
  a_receipt_allocation : Kind
  a_receipt : Kind
  a_vendor_invoice_line : Kind
  a_vendor_invoice : Kind
  a_journal_line : Kind
  a_journal_entry : Kind
  a_create_invoice_line : Kind
  a_create_invoice_request : Kind
  a_create_receipt_allocation : Kind
  a_create_receipt_request : Kind
  a_list_invoices_request : Kind
  a_list_invoices_response : Kind
  a_list_receipts_request : Kind
  a_list_receipts_response : Kind
  a_approve_invoice_request : Kind
  a_post_invoice_request : Kind
  a_error_response : Kind
  a_tenant : Kind
  a_create_tenant_request : Kind
  a_create_tenant_response : Kind

abbrev pub kind_of : Dto → Kind
kind_of (invoice_line x) = a_invoice_line
kind_of (invoice x) = a_invoice
kind_of (receipt_allocation x) = a_receipt_allocation
kind_of (receipt x) = a_receipt
kind_of (vendor_invoice_line x) = a_vendor_invoice_line
kind_of (vendor_invoice x) = a_vendor_invoice
kind_of (journal_line x) = a_journal_line
kind_of (journal_entry x) = a_journal_entry
kind_of (create_invoice_line x) = a_create_invoice_line
kind_of (create_invoice_request x) = a_create_invoice_request
kind_of (create_receipt_allocation x) = a_create_receipt_allocation
kind_of (create_receipt_request x) = a_create_receipt_request
kind_of (list_invoices_request x) = a_list_invoices_request
kind_of (list_invoices_response x) = a_list_invoices_response
kind_of (list_receipts_request x) = a_list_receipts_request
kind_of (list_receipts_response x) = a_list_receipts_response
kind_of (approve_invoice_request x) = a_approve_invoice_request
kind_of (post_invoice_request x) = a_post_invoice_request
kind_of (error_response x) = a_error_response
kind_of (tenant x) = a_tenant
kind_of (create_tenant_request x) = a_create_tenant_request
kind_of (create_tenant_response x) = a_create_tenant_response

abbrev pub fields_of : Dto → List Field
fields_of (invoice_line x) = invoice_line_fields x
fields_of (invoice x) = invoice_fields x
fields_of (receipt_allocation x) = receipt_allocation_fields x
fields_of (receipt x) = receipt_fields x
fields_of (vendor_invoice_line x) = vendor_invoice_line_fields x
fields_of (vendor_invoice x) = vendor_invoice_fields x
fields_of (journal_line x) = journal_line_fields x
fields_of (journal_entry x) = journal_entry_fields x
fields_of (create_invoice_line x) = create_invoice_line_fields x
fields_of (create_invoice_request x) = create_invoice_request_fields x
fields_of (create_receipt_allocation x) = create_receipt_allocation_fields x
fields_of (create_receipt_request x) = create_receipt_request_fields x
fields_of (list_invoices_request x) = list_invoices_request_fields x
fields_of (list_invoices_response x) = list_invoices_response_fields x
fields_of (list_receipts_request x) = list_receipts_request_fields x
fields_of (list_receipts_response x) = list_receipts_response_fields x
fields_of (approve_invoice_request x) = approve_invoice_request_fields x
fields_of (post_invoice_request x) = post_invoice_request_fields x
fields_of (error_response x) = error_response_fields x
fields_of (tenant x) = tenant_fields x
fields_of (create_tenant_request x) = create_tenant_request_fields x
fields_of (create_tenant_response x) = create_tenant_response_fields x

-- A struct of the type, each of its fields read from the member that the field's tag names.
abbrev pub read_as : Kind → Members → Dto
read_as a_invoice_line m = invoice_line (read_invoice_line m)
read_as a_invoice m = invoice (read_invoice m)
read_as a_receipt_allocation m = receipt_allocation (read_receipt_allocation m)
read_as a_receipt m = receipt (read_receipt m)
read_as a_vendor_invoice_line m = vendor_invoice_line (read_vendor_invoice_line m)
read_as a_vendor_invoice m = vendor_invoice (read_vendor_invoice m)
read_as a_journal_line m = journal_line (read_journal_line m)
read_as a_journal_entry m = journal_entry (read_journal_entry m)
read_as a_create_invoice_line m = create_invoice_line (read_create_invoice_line m)
read_as a_create_invoice_request m = create_invoice_request (read_create_invoice_request m)
read_as a_create_receipt_allocation m = create_receipt_allocation (read_create_receipt_allocation m)
read_as a_create_receipt_request m = create_receipt_request (read_create_receipt_request m)
read_as a_list_invoices_request m = list_invoices_request (read_list_invoices_request m)
read_as a_list_invoices_response m = list_invoices_response (read_list_invoices_response m)
read_as a_list_receipts_request m = list_receipts_request (read_list_receipts_request m)
read_as a_list_receipts_response m = list_receipts_response (read_list_receipts_response m)
read_as a_approve_invoice_request m = approve_invoice_request (read_approve_invoice_request m)
read_as a_post_invoice_request m = post_invoice_request (read_post_invoice_request m)
read_as a_error_response m = error_response (read_error_response m)
read_as a_tenant m = tenant (read_tenant m)
read_as a_create_tenant_request m = create_tenant_request (read_create_tenant_request m)
read_as a_create_tenant_response m = create_tenant_response (read_create_tenant_response m)

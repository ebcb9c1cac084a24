-- ===== src/Dto.antt =====
-- The data transfer types of internal/dto, and the JSON objects that their tags make of them.
pub mod Wire
pub mod Invoices
pub mod Receipts
pub mod VendorInvoices
pub mod Journals
pub mod Creating
pub mod Requests
pub mod Tenants
pub mod Members
pub mod RoundTrip

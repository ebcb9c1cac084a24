-- ===== src/Api/Strict.antt =====
-- StrictServerInterface, ServerInterface and strictHandler of internal/api/finance.gen.go.
use frego_finance.Prelude.{
  Option, none, some, List, [], ◌∷◌, ◌++◌, nat_eq, Text, text_eq, codes, Result, ok, err,
}
use frego_finance.Context.{Uuid, Context}
use frego_finance.Http.{Request}
use frego_finance.Api.Types.{
  Invoice, Receipt, ListInvoicesParams, ProvisionTenantJsonBody, ProvisionTenantParams,
}
use frego_finance.Api.Writer.{Writer, write_error}
use frego_finance.Api.Responses.{
  Json, HealthCheckResponse, ListInvoicesResponse, CreateInvoiceResponse, GetInvoiceResponse,
  ListReceiptsResponse, CreateReceiptResponse, ProvisionTenantResponse, visit_health_check,
  visit_list_invoices, visit_create_invoice, visit_get_invoice, visit_list_receipts,
  visit_create_receipt, visit_provision_tenant,
}

-- What an operation returns beside its error, as an interface{}: a response object, nil, or a value
-- of another type, by the name of the type.
pub data Reply (A : Type 0) : Type 0 where
  reply : A → Reply A
  nothing : Reply A
  unexpected : (type_name : Text) → Reply A

abbrev pub Operation : Type 0 → Type 0 → Type 0
Operation Q A = Context → Q → Result Text (Reply A)

-- The request objects; those of HealthCheck and ListReceipts have no field.
pub record ListInvoicesRequest : Type 0 where
  pub params : ListInvoicesParams

pub record CreateInvoiceRequest : Type 0 where
  pub body : Invoice

pub record GetInvoiceRequest : Type 0 where
  pub invoice_id : Uuid

pub record CreateReceiptRequest : Type 0 where
  pub body : Receipt

pub record ProvisionTenantRequest : Type 0 where
  pub params : ProvisionTenantParams
  pub body : ProvisionTenantJsonBody

pub record StrictServerInterface : Type 0 where
  pub health_check : Operation (Unit {0}) HealthCheckResponse
  pub list_invoices : Operation ListInvoicesRequest ListInvoicesResponse
  pub create_invoice : Operation CreateInvoiceRequest CreateInvoiceResponse
  pub get_invoice : Operation GetInvoiceRequest GetInvoiceResponse
  pub list_receipts : Operation (Unit {0}) ListReceiptsResponse
  pub create_receipt : Operation CreateReceiptRequest CreateReceiptResponse
  pub provision_tenant : Operation ProvisionTenantRequest ProvisionTenantResponse

-- A handler of the net/http package, on a writer.
abbrev pub Act : Type 0
Act = Request → Writer → Writer

pub record ServerInterface : Type 0 where
  pub health_check : Act
  pub list_invoices : ListInvoicesParams → Act
  pub create_invoice : Act
  pub get_invoice : Uuid → Act
  pub list_receipts : Act
  pub create_receipt : Act
  pub provision_tenant : ProvisionTenantParams → Act

-- StrictHandlerFunc: it may write by itself before it returns.
abbrev pub StrictFunc : Type 0 → Type 0 → Type 0
StrictFunc Q A = Context → Request → Q → Writer → Writer × Result Text (Reply A)

-- StrictMiddlewareFunc: a middleware for every operation, which keeps the operation's types.
abbrev pub StrictMiddleware : Type 1
StrictMiddleware = (operation : Text) (Q A : Type 0) → StrictFunc Q A → StrictFunc Q A

-- StrictHTTPServerOptions
pub record StrictOptions : Type 0 where
  pub request_error : Request → Text → Writer → Writer
  pub response_error : Request → Text → Writer → Writer

pub record StrictHandler : Type 1 where
  pub ssi : StrictServerInterface
  pub middlewares : List StrictMiddleware
  pub options : StrictOptions

-- The options of NewStrictHandler: a request error answers with 400, a response error with 500.
abbrev pub default_options : StrictOptions
default_options = record {
  request_error = λ r e w. write_error e 400 w;
  response_error = λ r e w. write_error e 500 w;
}

unfoldable pub new_strict_handler : StrictServerInterface → List StrictMiddleware → StrictHandler
new_strict_handler ssi middlewares = record {
  ssi = ssi;
  middlewares = middlewares;
  options = default_options;
}

unfoldable pub new_strict_handler_with_options :
    StrictServerInterface → List StrictMiddleware → StrictOptions → StrictHandler
new_strict_handler_with_options ssi middlewares options = record {
  ssi = ssi;
  middlewares = middlewares;
  options = options;
}

-- The loop over the middlewares: each wraps what the ones before it made.
unfoldable pub wrap_strict :
    {Q A : Type 0} → List StrictMiddleware → Text → StrictFunc Q A → StrictFunc Q A
wrap_strict {Q} {A} [] operation handler = handler
wrap_strict {Q} {A} (m ∷ ms) operation handler = wrap_strict ms operation (m operation Q A handler)

abbrev pub as_strict : {Q A : Type 0} → Operation Q A → StrictFunc Q A
as_strict f ctx r request w = (w, f ctx request)

module _ (options : StrictOptions) (r : Request) where
  abbrev pub after_visit : Writer × Option Text → Writer
  after_visit (w, none) = w
  after_visit (w, some e) = options.response_error r e w

  -- The last lines of each operation.
  abbrev pub respond :
      {A : Type 0} → (A → Writer → Writer × Option Text) → Writer × Result Text (Reply A) → Writer
  respond visit (w, err e) = options.response_error r e w
  respond visit (w, ok (reply x)) = after_visit (visit x w)
  respond visit (w, ok nothing) = w
  respond visit (w, ok (unexpected t)) =
      options.response_error r (codes "unexpected response type: " ++ t) w

  -- A body that is decoded, or the request error.
  abbrev pub decoded : {B : Type 0} → Result Text B → (B → Writer → Writer) → Writer → Writer
  decoded (ok body) next w = next body w
  decoded (err e) next w = options.request_error r (codes "can't decode JSON body: " ++ e) w

module _ (json : Json) (sh : StrictHandler) where
  abbrev pub run_strict :
      {Q A : Type 0}
      → (operation : Text) → Operation Q A
      → (A → Writer → Writer × Option Text)
      → Q
      → Act
  run_strict operation f visit request r w =
      respond sh.options r visit
        (wrap_strict sh.middlewares operation (as_strict f) r.context r request w)

  unfoldable pub strict_health_check : Act
  unfolding wrap_strict visit_health_check
  strict_health_check r w =
      run_strict (codes "HealthCheck") sh.ssi.health_check (visit_health_check json) tt r w

  unfoldable pub strict_list_invoices : ListInvoicesParams → Act
  unfolding wrap_strict visit_list_invoices
  strict_list_invoices params r w =
      run_strict (codes "ListInvoices") sh.ssi.list_invoices (visit_list_invoices json)
        (record { params = params }) r w

  unfoldable pub strict_create_invoice : Act
  unfolding wrap_strict visit_create_invoice
  strict_create_invoice r w =
      decoded sh.options r (json.decode_invoice r.body)
        (λ body w'.
          run_strict (codes "CreateInvoice") sh.ssi.create_invoice (visit_create_invoice json)
            (record { body = body }) r w')
        w

  unfoldable pub strict_get_invoice : Uuid → Act
  unfolding wrap_strict visit_get_invoice
  strict_get_invoice invoice_id r w =
      run_strict (codes "GetInvoice") sh.ssi.get_invoice (visit_get_invoice json)
        (record { invoice_id = invoice_id }) r w

  unfoldable pub strict_list_receipts : Act
  unfolding wrap_strict visit_list_receipts
  strict_list_receipts r w =
      run_strict (codes "ListReceipts") sh.ssi.list_receipts (visit_list_receipts json) tt r w

  unfoldable pub strict_create_receipt : Act
  unfolding wrap_strict visit_create_receipt
  strict_create_receipt r w =
      decoded sh.options r (json.decode_receipt r.body)
        (λ body w'.
          run_strict (codes "CreateReceipt") sh.ssi.create_receipt (visit_create_receipt json)
            (record { body = body }) r w')
        w

  unfoldable pub strict_provision_tenant : ProvisionTenantParams → Act
  unfolding wrap_strict visit_provision_tenant
  strict_provision_tenant params r w =
      decoded sh.options r (json.decode_provision r.body)
        (λ body w'.
          run_strict (codes "ProvisionTenant") sh.ssi.provision_tenant (visit_provision_tenant json)
            (record { params = params; body = body }) r w')
        w

  -- The strict handler as a ServerInterface.
  abbrev pub strict_server : ServerInterface
  strict_server = record {
    health_check = strict_health_check;
    list_invoices = strict_list_invoices;
    create_invoice = strict_create_invoice;
    get_invoice = strict_get_invoice;
    list_receipts = strict_list_receipts;
    create_receipt = strict_create_receipt;
    provision_tenant = strict_provision_tenant;
  }

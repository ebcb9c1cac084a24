-- ===== src/Api/Service.antt =====
-- The API as cmd/server/main.go wires it, by the operations of api/finance_openapi.yaml.
pub mod Status
pub mod Contexts
pub mod Unread
pub mod Guarded
pub mod Unsecured
use frego_finance.Prelude.{
  ℕ, Bool, true, false, ◌&&◌, none, List, [], ◌∷◌, ◌++◌, Text, codes, Result, ok, err,
}
use frego_finance.Context.{Context, Logger}
use frego_finance.Http.{Request, Handler}
use frego_finance.Logging.{inject_middleware}
use frego_finance.Api.Responses.{Json}
use frego_finance.Api.Strict.{
  ServerInterface, StrictServerInterface, new_strict_handler, strict_server, strict_health_check,
  strict_list_invoices, strict_create_invoice, strict_get_invoice, strict_list_receipts,
  strict_create_receipt, strict_provision_tenant,
}
use frego_finance.Api.Wrapper.{
  Binder, list_invoices_params, invoice_id_param, provision_tenant_params, wrapped_health_check,
  wrapped_list_invoices, wrapped_create_invoice, wrapped_get_invoice, wrapped_list_receipts,
  wrapped_create_receipt, wrapped_provision_tenant,
}
use frego_finance.Api.Routes.{Route, ServerOptions, wrapper_of, handler_with_options}

-- What main hands to the API: the decoders, the runtime, chi's GetReqID and the logger.
pub record Setup : Type 0 where
  pub binder : Binder
  pub json : Json
  pub req_id : Context → Text
  pub logger : Logger

abbrev pub server_options : Setup → ServerOptions
server_options s = record {
  base_url = codes "/finance/api/v1";
  base_router = none;
  middlewares = inject_middleware s.req_id s.logger ∷ [];
  error_handler = none;
}

-- strictServer of main
abbrev pub server_of : Setup → StrictServerInterface → ServerInterface
server_of s ssi = strict_server s.json (new_strict_handler ssi [])

-- apiHandler of main
unfoldable pub api_routes : Setup → StrictServerInterface → List Route
unfolding new_strict_handler strict_health_check strict_list_invoices strict_create_invoice
    strict_get_invoice strict_list_receipts strict_create_receipt strict_provision_tenant
    handler_with_options inject_middleware
api_routes s ssi = handler_with_options s.binder (server_of s ssi) (server_options s)

-- The operations of the OpenAPI document.
pub data Endpoint : Type 0 where
  health_check list_invoices create_invoice get_invoice list_receipts : Endpoint
  create_receipt provision_tenant : Endpoint

abbrev pub endpoints : List Endpoint
endpoints =
    health_check ∷ list_invoices ∷ create_invoice ∷ get_invoice ∷ list_receipts ∷ create_receipt
    ∷ provision_tenant ∷ []

abbrev pub method_of : Endpoint → Text
method_of create_invoice = codes "POST"
method_of create_receipt = codes "POST"
method_of provision_tenant = codes "POST"
method_of _ = codes "GET"

abbrev pub path_of : Endpoint → Text
path_of health_check = codes "/health"
path_of list_invoices = codes "/invoices"
path_of create_invoice = codes "/invoices"
path_of get_invoice = codes "/invoices/{invoice_id}"
path_of list_receipts = codes "/receipts"
path_of create_receipt = codes "/receipts"
path_of provision_tenant = codes "/tenants/provision"

-- The operations without an empty list under "security".
abbrev pub is_secured : Endpoint → Bool
is_secured health_check = false
is_secured provision_tenant = false
is_secured _ = true

-- The status of the document's response for success.
abbrev pub success_status : Endpoint → ℕ
success_status create_invoice = 201
success_status create_receipt = 201
success_status _ = 200

-- The handler of an operation.
unfoldable pub served_by : Setup → StrictServerInterface → Endpoint → Handler
served_by s ssi health_check =
    wrapped_health_check s.binder (wrapper_of (server_of s ssi) (server_options s))
served_by s ssi list_invoices =
    wrapped_list_invoices s.binder (wrapper_of (server_of s ssi) (server_options s))
served_by s ssi create_invoice =
    wrapped_create_invoice s.binder (wrapper_of (server_of s ssi) (server_options s))
served_by s ssi get_invoice =
    wrapped_get_invoice s.binder (wrapper_of (server_of s ssi) (server_options s))
served_by s ssi list_receipts =
    wrapped_list_receipts s.binder (wrapper_of (server_of s ssi) (server_options s))
served_by s ssi create_receipt =
    wrapped_create_receipt s.binder (wrapper_of (server_of s ssi) (server_options s))
served_by s ssi provision_tenant =
    wrapped_provision_tenant s.binder (wrapper_of (server_of s ssi) (server_options s))

abbrev pub is_ok : {E A : Type 0} → Result E A → Bool
is_ok (ok a) = true
is_ok (err e) = false

-- The parameters and the body of a request can be read.
abbrev pub readable : Setup → Endpoint → Request → Bool
readable s list_invoices r = is_ok (list_invoices_params s.binder r.query)
readable s create_invoice r = is_ok (s.json.decode_invoice r.body)
readable s get_invoice r = is_ok (invoice_id_param s.binder r)
readable s create_receipt r = is_ok (s.json.decode_receipt r.body)
readable s provision_tenant r =
    is_ok (provision_tenant_params s.binder r) && is_ok (s.json.decode_provision r.body)
readable s _ r = true

-- The route of an operation of the document.
abbrev pub documented_route : Setup → StrictServerInterface → Endpoint → Route
documented_route s ssi e = record {
  method = method_of e;
  pattern = codes "/finance/api/v1" ++ path_of e;
  handler = served_by s ssi e;
}

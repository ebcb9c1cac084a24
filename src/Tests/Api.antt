-- ===== src/Tests/Api.antt =====
-- Examples for package internal/api.
use frego_finance.Prelude.{◌≢◌}
use frego_finance.Prelude.{
  ◌≡◌, refl, ◌⊎◌, true, false, none, some, [], ◌∷◌, map, if◌then◌else◌, nat_eq, Text, text_beq,
  text_eq, codes, ok,
}
use frego_finance.Slog.{default_handler}
use frego_finance.Context.{Context, Logger, named, texts_item, value}
use frego_finance.Context.Claims.{values}
use frego_finance.Common.Principal.{principal_from_context}
use frego_finance.Server.TenantMiddleware.{get_tenant_id}
use frego_finance.Http.{Request, http_error}
use frego_finance.Logging.{from_context}
use frego_finance.Server.Router.Laws.{IsRefused}
use frego_finance.Api.Types.{nil_uuid}
use frego_finance.Api.Wrapper.{
  Binder, as_handler, find_values, list_invoices_params, provision_tenant_params,
}
use frego_finance.Api.Responses.{Json}
use frego_finance.Api.FinanceHandler.{FinanceHandler, finance_server, zero_invoice, zero_receipt}
use frego_finance.Api.TenantHandler
use frego_finance.Api.TenantHandler.{TenantHandler}
use frego_finance.Api.Service.{
  Setup, Endpoint, list_invoices, provision_tenant, endpoints, readable, is_secured, success_status,
  served_by, documented_route, api_routes,
}
use frego_finance.Api.Service.Status.{status_of, api_routes-status}
use frego_finance.Api.Service.Contexts.{reporting, logger_of, served_by-context}
use frego_finance.Api.Service.Unread.{provision_tenant-secret}
use frego_finance.Api.Service.Guarded.{IsExecuted, IsUnreadable, guarded-mediates}
use frego_finance.Http.{header_get, values_of}
use frego_finance.Api.Service.Unsecured.{IsOpen, IsUnauthenticated, served_by-unsecured}
use frego_finance.Tests.Samples.{ascii, authenticator, registry, request, closed}

abbrev binder : Binder
binder = record {
  query_uuid = λ name query. ok none;
  query_text = λ name query. ok none;
  query_int = λ name query. ok none;
  url_param = λ r name. codes "i1";
  path_uuid = λ name raw. ok raw;
  header_text = λ name raw. ok raw;
}

-- An encoder that writes every value alike, and decoders that take every body.
abbrev json : Json
json = record {
  encode = λ payload. ok (codes "{}");
  decode_invoice = λ body. ok zero_invoice;
  decode_receipt = λ body. ok zero_receipt;
  decode_provision =
      λ body. ok (record { actor = none; display_name = none; tenant_id = nil_uuid });
}

abbrev pub no_logger : Logger
no_logger = record { handler = default_handler [] }

abbrev pub setup : Setup
setup = record { binder = binder; json = json; req_id = λ ctx. codes "r1"; logger = no_logger }

abbrev handler : FinanceHandler
handler = record { max_upload_size = 10485760; internal_secret = codes "s" }

abbrev other_handler : FinanceHandler
other_handler = record handler { internal_secret = codes "other" }

api_routes-status_example :
    (api_routes setup (finance_server handler)
      ≡ map (documented_route setup (finance_server handler)) endpoints)
    × ((e : Endpoint) (r : Request)
        → status_of (served_by setup (finance_server handler) e r)
          ≡ (if readable setup e r then success_status e else 400))
    × ((e : Endpoint) (r : Request)
        → status_of (served_by setup (finance_server handler) e r) ≢ 404)
api_routes-status_example = api_routes-status setup handler

-- An implementation that tells the tenant that it finds.
abbrev tenant_text : Context → Text
tenant_text ctx = codes "tenant"

invoices_readable : readable setup list_invoices request ≡ true
unfolding list_invoices_params
invoices_readable = refl

served_by-context_example :
    (ctx : Context) × ((served_by setup (reporting tenant_text) list_invoices request).response
      ≡ http_error (tenant_text ctx) 500)
    × (principal_from_context ctx ≡ principal_from_context request.context)
    × (get_tenant_id ctx ≡ get_tenant_id request.context)
    × (from_context no_logger ctx ≡ logger_of setup list_invoices request.context)
    × ((is_secured list_invoices ≡ false)
        ⊎ (value ctx (named (codes "BearerAuth.Scopes")) ≡ some (texts_item [])))
served_by-context_example =
    served_by-context setup tenant_text no_logger list_invoices request invoices_readable

-- Provisioning requests with two secrets.
abbrev secret_request : Request
secret_request = record request { headers = (codes "Secret", codes "s" ∷ []) ∷ [] }

abbrev wrong_request : Request
wrong_request = record request { headers = (codes "Secret", codes "wrong" ∷ []) ∷ [] }

secret_readable : readable setup provision_tenant secret_request ≡ true
unfolding provision_tenant_params find_values text_beq
secret_readable = refl

wrong_readable : readable setup provision_tenant wrong_request ≡ true
unfolding provision_tenant_params find_values text_beq
wrong_readable = refl

abbrev internal : Text → TenantHandler
internal secret = record { internal_secret = secret }

provision_tenant-secret_example :
    ((served_by setup (finance_server handler) provision_tenant secret_request).response
      ≡ (served_by setup (finance_server other_handler) provision_tenant wrong_request).response)
    × ((as_handler
          (TenantHandler.provision_tenant json (internal (codes "s")))
          secret_request).response
        ≡ (as_handler
            (TenantHandler.provision_tenant json (internal (codes "other")))
            wrong_request).response)
provision_tenant-secret_example =
    provision_tenant-secret setup handler other_handler (internal (codes "s"))
      (internal (codes "other")) secret_request wrong_request secret_readable wrong_readable

guarded-mediates_example :
    IsExecuted ascii values authenticator registry setup tenant_text list_invoices request
    ⊎ IsUnreadable ascii values authenticator registry setup tenant_text list_invoices request
    ⊎ IsRefused ascii values authenticator registry request
guarded-mediates_example =
    guarded-mediates ascii values authenticator registry setup tenant_text list_invoices request
      closed

-- A provisioning request without a token, which the document lets through.
abbrev bare_request : Request
bare_request = record secret_request { method = codes "POST" }

no_authorization : header_get bare_request (codes "Authorization") ≡ []
unfolding header_get values_of text_beq
no_authorization = refl

served_by-unsecured_example :
    IsOpen ascii values authenticator registry setup
      (finance_server handler)
      provision_tenant
      bare_request
    ⊎ IsUnauthenticated ascii values authenticator registry setup
        (finance_server handler)
        provision_tenant
        bare_request
served_by-unsecured_example =
    served_by-unsecured ascii values authenticator registry setup (finance_server handler)
      provision_tenant bare_request no_authorization

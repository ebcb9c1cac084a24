-- ===== src/Server/TenantMiddleware.antt =====
-- internal/server/tenant_middleware.go.
pub mod Laws
use frego_finance.Prelude.{
  Bool, true, false, not, Option, some, [], if◌then◌else◌, ◌==◌, nat_eq, Text, text_eq, codes,
  Result, ok, err,
}
use frego_finance.Context.{Uuid, Context, Item, uuid_item, named, value, with_value}
use frego_finance.Http.{
  Request, Handler, Middleware, Served, header_get, http_error, served, with_line, warn, error,
  with_context,
}
use frego_finance.Db.Query.{QueryError, no_rows, query_failed}

-- What the middleware is given: uuid.Parse, the query whether a tenant is active, and the
-- configured default tenant.
pub record Registry : Type 0 where
  pub parse_uuid : Text → Result Text Uuid
  pub is_active : Uuid → Result QueryError Bool
  pub default_tenant : Uuid

abbrev pub tenant_key : Text
tenant_key = codes "tenant_id"

-- The tenant of a request, and whether its header was invalid.
abbrev pub parsed_or_default : Uuid → Result Text Uuid → Uuid × Bool
parsed_or_default default_tenant (ok tenant) = (tenant, false)
parsed_or_default default_tenant (err e) = (default_tenant, true)

-- `parsed` is what the header is parsed to, if it is not empty.
abbrev pub chosen : Uuid → Text → Result Text Uuid → Uuid × Bool
chosen default_tenant header parsed =
    if not (header == []) then parsed_or_default default_tenant parsed else (default_tenant, false)

unfoldable pub choose_tenant : Registry → Request → Uuid × Bool
unfolding header_get
choose_tenant reg r =
    let header = header_get r (codes "X-Tenant-ID") in
    chosen reg.default_tenant header (reg.parse_uuid header)

abbrev pub warned : Bool → Served → Served
warned false s = s
warned true s = with_line warn (codes "invalid tenant ID in header, using default") s

-- What is done with the answer of the query; without a row, `exists` is still false.
abbrev pub after_query : Handler → Request → Uuid → Result QueryError Bool → Served
after_query next r tenant (err (query_failed e)) =
    with_line error (codes "failed to verify tenant")
      (served (http_error (codes "Internal server error") 500))
after_query next r tenant (err no_rows) =
    with_line warn (codes "tenant not found or inactive")
      (served (http_error (codes "Tenant not found or inactive") 403))
after_query next r tenant (ok false) =
    with_line warn (codes "tenant not found or inactive")
      (served (http_error (codes "Tenant not found or inactive") 403))
after_query next r tenant (ok true) =
    next (with_context r (with_value r.context (named tenant_key) (uuid_item tenant)))

unfoldable pub tenant_middleware : Registry → Middleware
tenant_middleware reg next r =
    let (tenant, invalid) = choose_tenant reg r in
    warned invalid (after_query next r tenant (reg.is_active tenant))

pub data ContextError : Type 0 where
  tenant_not_in_context : ContextError

abbrev pub as_uuid : Option Item → Result ContextError Uuid
as_uuid (some (uuid_item tenant)) = ok tenant
as_uuid _ = err tenant_not_in_context

unfoldable pub get_tenant_id : Context → Result ContextError Uuid
unfolding value
get_tenant_id ctx = as_uuid (value ctx (named tenant_key))

-- ===== src/Api/Wrapper.antt =====
-- ServerInterfaceWrapper of internal/api/finance.gen.go: the parameters of the requests, over the
-- binders of the oapi-codegen runtime.
use frego_finance.Prelude.{
  ℕ, Option, none, some, List, [], ◌∷◌, if◌then◌else◌, ◌==◌, nat_eq, Text, text_eq, codes, length,
  Result, ok, err, ◌>>=◌, wrap_err,
}
use frego_finance.Context.{Uuid, named, texts_item, with_value}
use frego_finance.Http.{Request, Handler, Middleware, Served, with_context}
use frego_finance.Api.Types.{ListInvoicesParams, ProvisionTenantParams}
use frego_finance.Api.Errors.{ParamError, invalid_format, too_many_values, required_header}
use frego_finance.Api.Writer.{Writer, answer}
use frego_finance.Api.Strict.{Act, ServerInterface}

-- BindQueryParameter for the types that are used, chi's URLParam, and BindStyledParameterWithOptions
-- for a path and for a header.
pub record Binder : Type 0 where
  pub query_uuid : (name : Text) → List (Text × List Text) → Result Text (Option Uuid)
  pub query_text : (name : Text) → List (Text × List Text) → Result Text (Option Text)
  pub query_int : (name : Text) → List (Text × List Text) → Result Text (Option ℕ)
  pub url_param : Request → (name : Text) → Text
  pub path_uuid : (name raw : Text) → Result Text Uuid
  pub header_text : (name raw : Text) → Result Text Text

pub record Wrapper : Type 0 where
  pub handler : ServerInterface
  pub middlewares : List Middleware
  pub error_handler : Request → ParamError → Writer → Writer

-- The loop over the middlewares: the last of the list runs first.
unfoldable pub wrap : List Middleware → Handler → Handler
wrap [] handler = handler
wrap (m ∷ ms) handler = wrap ms (m handler)

-- context.WithValue(ctx, BearerAuthScopes, []string{})
abbrev pub with_scopes : Request → Request
with_scopes r =
    with_context r (with_value r.context (named (codes "BearerAuth.Scopes")) (texts_item []))

abbrev pub as_handler : Act → Handler
as_handler act r = answer (act r)

-- A parameter, or the error that names it.
abbrev pub bound : {A : Type 0} → (name : Text) → Result Text A → Result ParamError A
bound name r = wrap_err (invalid_format name) r

module _ (binder : Binder) where
  unfoldable pub list_invoices_params :
      List (Text × List Text) → Result ParamError ListInvoicesParams
  list_invoices_params query = do
    customer_id ← bound (codes "customer_id") (binder.query_uuid (codes "customer_id") query)
    status ← bound (codes "status") (binder.query_text (codes "status") query)
    limit ← bound (codes "limit") (binder.query_int (codes "limit") query)
    offset ← bound (codes "offset") (binder.query_int (codes "offset") query)
    ok (record { customer_id = customer_id; status = status; limit = limit; offset = offset })

  unfoldable pub invoice_id_param : Request → Result ParamError Uuid
  invoice_id_param r =
      bound (codes "invoice_id")
        (binder.path_uuid (codes "invoice_id") (binder.url_param r (codes "invoice_id")))

  -- The values of the header, nil if it is not there.
  unfoldable pub find_values : Text → List (Text × List Text) → Option (List Text)
  find_values name [] = none
  find_values name ((k, vs) ∷ rest) =
      let later = find_values name rest in if k == name then some vs else later

  abbrev pub secret_of : Option (List Text) → Result ParamError ProvisionTenantParams
  secret_of none = err (
      required_header (codes "Secret") (codes "Header parameter Secret is required, but not found"))
  secret_of (some (v ∷ [])) = do
    secret ← bound (codes "Secret") (binder.header_text (codes "Secret") v)
    ok (record { secret = secret })
  secret_of (some vs) = err (too_many_values (codes "Secret") (length vs))

  unfoldable pub provision_tenant_params : Request → Result ParamError ProvisionTenantParams
  unfolding find_values
  provision_tenant_params r = secret_of (find_values (codes "Secret") r.headers)

  module _ (siw : Wrapper) where
    -- The handler for the parameters, or the error handler for what could not be read.
    abbrev pub with_params : {A : Type 0} → Result ParamError A → (A → Handler) → Request → Served
    with_params (ok params) next r = next params r
    with_params (err e) next r = answer (siw.error_handler r e)

    unfoldable pub wrapped_health_check : Handler
    unfolding wrap
    wrapped_health_check r = wrap siw.middlewares (as_handler siw.handler.health_check) r

    -- The scopes are set before the parameters are read.
    unfoldable pub wrapped_list_invoices : Handler
    unfolding wrap list_invoices_params
    wrapped_list_invoices r =
        with_params (list_invoices_params r.query)
          (λ params. wrap siw.middlewares (as_handler (siw.handler.list_invoices params)))
          (with_scopes r)

    unfoldable pub wrapped_create_invoice : Handler
    unfolding wrap
    wrapped_create_invoice r =
        wrap siw.middlewares (as_handler siw.handler.create_invoice) (with_scopes r)

    -- The path is read before the scopes are set.
    unfoldable pub wrapped_get_invoice : Handler
    unfolding wrap invoice_id_param
    wrapped_get_invoice r =
        with_params (invoice_id_param r)
          (λ invoice_id r'.
            wrap siw.middlewares (as_handler (siw.handler.get_invoice invoice_id)) (with_scopes r'))
          r

    unfoldable pub wrapped_list_receipts : Handler
    unfolding wrap
    wrapped_list_receipts r =
        wrap siw.middlewares (as_handler siw.handler.list_receipts) (with_scopes r)

    unfoldable pub wrapped_create_receipt : Handler
    unfolding wrap
    wrapped_create_receipt r =
        wrap siw.middlewares (as_handler siw.handler.create_receipt) (with_scopes r)

    unfoldable pub wrapped_provision_tenant : Handler
    unfolding wrap provision_tenant_params
    wrapped_provision_tenant r =
        with_params (provision_tenant_params r)
          (λ params. wrap siw.middlewares (as_handler (siw.handler.provision_tenant params))) r

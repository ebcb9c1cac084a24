-- ===== src/Api/Routes.antt =====
-- HandlerWithOptions and Unimplemented of internal/api/finance.gen.go, over chi's router.
use frego_finance.Prelude.{Option, none, some, List, [], ◌∷◌, ◌++◌, nat_eq, Text, text_eq, codes}
use frego_finance.Http.{Request, Handler, Middleware}
use frego_finance.Api.Errors.{ParamError, error_text}
use frego_finance.Api.Writer.{Writer, write_error, write_header}
use frego_finance.Api.Strict.{Act, ServerInterface}
use frego_finance.Api.Wrapper.{
  Binder, Wrapper, wrapped_health_check, wrapped_list_invoices, wrapped_create_invoice,
  wrapped_get_invoice, wrapped_list_receipts, wrapped_create_receipt, wrapped_provision_tenant,
}

pub record Route : Type 0 where
  pub method : Text
  pub pattern : Text
  pub handler : Handler

-- ChiServerOptions; a base router is the routes that it has already.
pub record ServerOptions : Type 0 where
  pub base_url : Text
  pub base_router : Option (List Route)
  pub middlewares : List Middleware
  pub error_handler : Option (Request → ParamError → Writer → Writer)

abbrev pub default_error_handler : Request → ParamError → Writer → Writer
default_error_handler r e w = write_error (error_text e) 400 w

abbrev pub or_default :
    Option (Request → ParamError → Writer → Writer) → Request → ParamError → Writer → Writer
or_default none = default_error_handler
or_default (some f) = f

abbrev pub routes_of : Option (List Route) → List Route
routes_of none = []
routes_of (some routes) = routes

abbrev pub wrapper_of : ServerInterface → ServerOptions → Wrapper
wrapper_of si options = record {
  handler = si;
  middlewares = options.middlewares;
  error_handler = or_default options.error_handler;
}

abbrev pub get_route : Text → Handler → Route
get_route pattern handler = record { method = codes "GET"; pattern = pattern; handler = handler }

abbrev pub post_route : Text → Handler → Route
post_route pattern handler = record { method = codes "POST"; pattern = pattern; handler = handler }

module _ (binder : Binder) where
  -- The routes that the router has in the end, in the order in which they are added.
  unfoldable pub handler_with_options : ServerInterface → ServerOptions → List Route
  handler_with_options si options =
      let w = wrapper_of si options in
      let base = options.base_url in
      routes_of options.base_router
      ++ (get_route (base ++ codes "/health") (wrapped_health_check binder w)
          ∷ get_route (base ++ codes "/invoices") (wrapped_list_invoices binder w)
          ∷ post_route (base ++ codes "/invoices") (wrapped_create_invoice binder w)
          ∷ get_route (base ++ codes "/invoices/{invoice_id}") (wrapped_get_invoice binder w)
          ∷ get_route (base ++ codes "/receipts") (wrapped_list_receipts binder w)
          ∷ post_route (base ++ codes "/receipts") (wrapped_create_receipt binder w)
          ∷ post_route (base ++ codes "/tenants/provision") (wrapped_provision_tenant binder w)
          ∷ [])

  unfoldable pub handler_from_mux : ServerInterface → List Route → List Route
  unfolding handler_with_options
  handler_from_mux si r =
      handler_with_options si
        (record { base_url = []; base_router = some r; middlewares = []; error_handler = none })

  unfoldable pub handler_from_mux_with_base_url : ServerInterface → List Route → Text → List Route
  unfolding handler_with_options
  handler_from_mux_with_base_url si r base_url =
      handler_with_options si (record {
        base_url = base_url;
        base_router = some r;
        middlewares = [];
        error_handler = none;
      })

  unfoldable pub handler : ServerInterface → List Route
  unfolding handler_with_options
  handler si =
      handler_with_options si
        (record { base_url = []; base_router = none; middlewares = []; error_handler = none })

-- Every operation of Unimplemented answers in the same way.
abbrev pub not_implemented : Act
not_implemented r w = write_header 501 w

unfoldable pub unimplemented : ServerInterface
unimplemented = record {
  health_check = not_implemented;
  list_invoices = λ params. not_implemented;
  create_invoice = not_implemented;
  get_invoice = λ invoice_id. not_implemented;
  list_receipts = not_implemented;
  create_receipt = not_implemented;
  provision_tenant = λ params. not_implemented;
}

-- ===== src/Server/Router.antt =====
-- The handlers that BuildRouter of internal/server/server.go puts together, over chi's router.
pub mod Laws
use frego_finance.Prelude.{Option, none, some, List, [], ◌∷◌, ◌++◌, Text, codes}
use frego_finance.Http.{Handler, Middleware, served}

-- Where a handler stands: a method and a path, or everything below a path.
pub data Route : Type 0 where
  get : Text → Handler → Route
  mount : Text → Handler → Route

-- chi and three of its middlewares: `serve` runs the global middlewares and picks a route.
pub record Chi : Type 0 where
  pub request_id : Middleware
  pub real_ip : Middleware
  pub recoverer : Middleware
  pub serve : List Middleware → List Route → Handler

-- The handler of "/health".
abbrev pub health : Handler
health r = served (record { status = 200; headers = []; body = codes "OK" })

-- The handler behind the middlewares of the group: the first that Use names runs first.
unfoldable pub protected : (auth tenant : Middleware) → Handler → Handler
protected auth tenant api = auth (tenant api)

abbrev pub tenant_routes : Option Handler → List Route
tenant_routes none = []
tenant_routes (some h) = mount (codes "/") h ∷ []

unfoldable pub routes :
    (api : Handler) → (tenants : Option Handler) → (auth tenant : Middleware) → List Route
unfolding protected
routes api tenants auth tenant =
    (get (codes "/health") health ∷ tenant_routes tenants)
    ++ (mount (codes "/finance/api/v1") (protected auth tenant api) ∷ [])

unfoldable pub build_router :
    Chi → (api : Handler) → (tenants : Option Handler) → (cors auth tenant : Middleware) → Handler
unfolding routes
build_router chi api tenants cors auth tenant =
    chi.serve (chi.request_id ∷ chi.real_ip ∷ chi.recoverer ∷ cors ∷ [])
      (routes api tenants auth tenant)

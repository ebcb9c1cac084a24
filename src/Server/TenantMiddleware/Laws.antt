-- ===== src/Server/TenantMiddleware/Laws.antt =====
-- For which tenant a request is served.
use frego_finance.Prelude.{
  ◌≡◌, refl, ap, ◌∙◌, ◌≢◌, ◌⊎◌, inl, inr, Bool, true, false, [], arith, nat_eq, Text, text_beq,
  text_beq_iff, text_eq, codes, Result, ok, err,
}
use frego_finance.Context.{Uuid, Principal, uuid_item, named, with_value, same_key}
use frego_finance.Common.Principal.{with_principal}
use frego_finance.Http.{Request, Handler, Served, Response, header_get, with_context, http_error}
use frego_finance.Db.Query.{QueryError, no_rows, query_failed}
use frego_finance.Server.TenantMiddleware.{
  Registry, tenant_key, choose_tenant, tenant_middleware, after_query, warned, chosen,
  get_tenant_id,
}

-- The request as the handler behind the middleware gets it.
abbrev pub for_tenant : Request → Uuid → Request
for_tenant r tenant = with_context r (with_value r.context (named tenant_key) (uuid_item tenant))

module _ (reg : Registry) (r : Request) where
  -- The handler runs for an active tenant, with the tenant in its context.
  abbrev pub RunsForTenant : Handler → Type 0
  RunsForTenant next =
      (reg.is_active (choose_tenant reg r).0 ≡ ok true)
      × (get_tenant_id (for_tenant r (choose_tenant reg r).0).context ≡ ok (choose_tenant reg r).0)
      × ((tenant_middleware reg next r).response
          ≡ (next (for_tenant r (choose_tenant reg r).0)).response)

  -- The middleware answers by itself with 403 or 500, whatever the handler is.
  abbrev pub IsBarred : Type 0
  IsBarred =
      (s : Response) × ((next : Handler) → (tenant_middleware reg next r).response ≡ s)
      × ((s.status ≡ 403) ⊎ (s.status ≡ 500))

warned-response : (b : Bool) (s : Served) → (warned b s).response ≡ s.response
warned-response true s = refl
warned-response false s = refl

response-after_query :
    (reg : Registry) (r : Request) (next : Handler) (res : Result QueryError Bool)
    → reg.is_active (choose_tenant reg r).0 ≡ res
    → (tenant_middleware reg next r).response
      ≡ (after_query next r (choose_tenant reg r).0 res).response
unfolding tenant_middleware
response-after_query reg r next res e =
    warned-response (choose_tenant reg r).1
      (after_query next r (choose_tenant reg r).0 (reg.is_active (choose_tenant reg r).0))
    ∙ ap (λ q. (after_query next r (choose_tenant reg r).0 q).response) e

get_tenant_id-for_tenant :
    (r : Request) (tenant : Uuid) → get_tenant_id (for_tenant r tenant).context ≡ ok tenant
unfolding get_tenant_id same_key text_beq
get_tenant_id-for_tenant r tenant = refl

mediates :
    (reg : Registry) (r : Request) (next : Handler) (res : Result QueryError Bool)
    → reg.is_active (choose_tenant reg r).0 ≡ res
    → RunsForTenant reg r next ⊎ IsBarred reg r
mediates reg r next (ok true) e = inl (
  e,
  get_tenant_id-for_tenant r (choose_tenant reg r).0,
  response-after_query reg r next (ok true) e,
)
mediates reg r next (ok false) e = inr (
  http_error (codes "Tenant not found or inactive") 403,
  (λ n. response-after_query reg r n (ok false) e),
  inl refl,
)
mediates reg r next (err no_rows) e = inr (
  http_error (codes "Tenant not found or inactive") 403,
  (λ n. response-after_query reg r n (err no_rows) e),
  inl refl,
)
mediates reg r next (err (query_failed x)) e = inr (
  http_error (codes "Internal server error") 500,
  (λ n. response-after_query reg r n (err (query_failed x)) e),
  inr refl,
)

-- A request is passed on only if the registry reports its tenant as active, and then the handler
-- finds this tenant in its context; otherwise the response is 403 or 500 and does not depend on the
-- handler.
pub tenant_middleware-mediates :
    (reg : Registry) (r : Request) (next : Handler) → RunsForTenant reg r next ⊎ IsBarred reg r
tenant_middleware-mediates reg r next = mediates reg r next _ refl

chosen-some : (d tenant : Uuid) (h : Text) → h ≢ [] → (chosen d h (ok tenant)).0 ≡ tenant
chosen-some d tenant h some_rune = ground (arith, text_beq_iff h [])

-- A request whose header holds the id of an active tenant is served for that tenant, whatever
-- principal its context holds: the principal's own tenant is not compared with the header.
pub tenant_middleware-header :
    (reg : Registry) (r : Request) (p : Principal) (next : Handler) (h : Text) (tenant : Uuid)
    → header_get r (codes "X-Tenant-ID") ≡ h
    → h ≢ []
    → reg.parse_uuid h ≡ ok tenant
    → reg.is_active tenant ≡ ok true
    → (tenant_middleware reg next (with_context r (with_principal r.context p))).response
      ≡ (next (for_tenant (with_context r (with_principal r.context p)) tenant)).response
unfolding choose_tenant header_get
tenant_middleware-header reg r p next h tenant e some_rune parsed active =
    let q = with_context r (with_principal r.context p) in
    let t : (choose_tenant reg q).0 ≡ tenant =
      ap (λ x. (chosen reg.default_tenant x (reg.parse_uuid x)).0) e
      ∙ ap (λ x. (chosen reg.default_tenant h x).0) parsed
      ∙ chosen-some reg.default_tenant tenant h some_rune in
    response-after_query reg q next (ok true) (ap reg.is_active t ∙ active)
    ∙ ap (λ x. (next (for_tenant q x)).response) t

-- ===== src/Api/TenantHandler.antt =====
-- internal/api/tenant_handler.go.
use frego_finance.Prelude.{Option, List, [], ◌∷◌, ◌++◌, nat_eq, Text, text_eq, codes}
use frego_finance.Context.{Uuid}
use frego_finance.Api.Writer.{set_header, write_header}
use frego_finance.Api.Responses.{Json, tenant_payload, written}
use frego_finance.Api.Strict.{Act}
use frego_finance.Api.Wrapper.{as_handler}
use frego_finance.Api.Routes.{Route, post_route}

pub record TenantHandler : Type 0 where
  pub internal_secret : Text

unfoldable pub new_tenant_handler : Text → TenantHandler
new_tenant_handler internal_secret = record { internal_secret = internal_secret }

-- The request's type; the handler does not read it.
pub record ProvisionRequest : Type 0 where
  pub tenant_id : Uuid
  pub display_name : Option Text
  pub actor : Option Text

module _ (json : Json) (h : TenantHandler) where
  -- ProvisionTenant; the error of the encoder is dropped.
  unfoldable pub provision_tenant : Act
  provision_tenant r w =
      (written (json.encode (tenant_payload (codes "provisioning is now handled centrally") [] []))
        (write_header 200 (set_header (codes "Content-Type") (codes "application/json") w))).0

  unfoldable pub register_routes : List Route → List Route
  unfolding provision_tenant
  register_routes routes =
      routes ++ (post_route (codes "/tenants/provision") (as_handler provision_tenant) ∷ [])

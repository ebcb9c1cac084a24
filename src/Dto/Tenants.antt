-- ===== src/Dto/Tenants.antt =====
-- internal/dto/tenant/types.go.
use frego_finance.Prelude.{ℕ, Bool, Option, List, [], ◌∷◌, Text, codes}
use frego_finance.Context.{Uuid}
use frego_finance.Dto.Wire.{Field, always, flag, instant, optional, text, uuid}

pub record Tenant : Type 0 where
  pub tenant_id : Uuid
  pub schema_name : Text
  pub display_name : Option Text
  pub contact_email : Option Text
  pub is_active : Bool
  pub created_at : ℕ
  pub created_by : Option Text
  pub modified_at : Option ℕ
  pub modified_by : Option Text

unfoldable pub tenant_fields : Tenant → List Field
tenant_fields x =
    always (codes "tenant_id") (uuid x.tenant_id)
    ∷ always (codes "schema_name") (text x.schema_name)
    ∷ optional (codes "display_name") text x.display_name
    ∷ optional (codes "contact_email") text x.contact_email
    ∷ always (codes "is_active") (flag x.is_active)
    ∷ always (codes "created_at") (instant x.created_at)
    ∷ optional (codes "created_by") text x.created_by
    ∷ optional (codes "modified_at") instant x.modified_at
    ∷ optional (codes "modified_by") text x.modified_by
    ∷ []

pub record CreateTenantRequest : Type 0 where
  pub tenant_id : Text
  pub schema_name : Option Text
  pub display_name : Option Text
  pub contact_email : Option Text

unfoldable pub create_tenant_request_fields : CreateTenantRequest → List Field
create_tenant_request_fields x =
    always (codes "tenant_id") (text x.tenant_id)
    ∷ optional (codes "schema_name") text x.schema_name
    ∷ optional (codes "display_name") text x.display_name
    ∷ optional (codes "contact_email") text x.contact_email
    ∷ []

pub record CreateTenantResponse : Type 0 where
  pub tenant_id : Uuid
  pub schema_name : Text
  pub message : Text

unfoldable pub create_tenant_response_fields : CreateTenantResponse → List Field
create_tenant_response_fields x =
    always (codes "tenant_id") (uuid x.tenant_id)
    ∷ always (codes "schema_name") (text x.schema_name)
    ∷ always (codes "message") (text x.message)
    ∷ []

-- ===== src/Tenants.antt =====
-- internal/repository/tenant/repository.go and internal/service/tenant/service.go.
use frego_finance.Prelude.{nat_eq, Text, text_eq, Result, wrap_err}
use frego_finance.Context.{Uuid}
use frego_finance.Db.Query.{QueryError}

pub data TenantError : Type 0 where
  get_schema_failed : QueryError → TenantError

-- `active_schema` is the query for the finance schema of an active tenant.
pub record Repository : Type 0 where
  pub active_schema : Uuid → Result QueryError Text
  pub db_user : Text

-- New of the repository: the query runs on the tenant pool, and the finance pool is not used.
unfoldable pub new_repository :
    {P : Type 0} → (P → Uuid → Result QueryError Text) → P → P → Text → Repository
new_repository active_schema_on tenant_pool finance_pool db_user = record {
  active_schema = active_schema_on tenant_pool;
  db_user = db_user;
}

unfoldable pub get_tenant_schema : Repository → Uuid → Result TenantError Text
get_tenant_schema repo tenant = wrap_err get_schema_failed (repo.active_schema tenant)

pub record Service : Type 0 where
  pub repo : Repository

-- New of the service
unfoldable pub new_service : Repository → Service
new_service repo = record { repo = repo }

unfoldable pub service_tenant_schema : Service → Uuid → Result TenantError Text
unfolding get_tenant_schema
service_tenant_schema s tenant = get_tenant_schema s.repo tenant

-- ===== src/Common/Tenant.antt =====
-- internal/common/tenant.go.
use frego_finance.Prelude.{
  ◌≡◌, Bool, true, false, Option, none, some, [], arith, if◌then◌else◌, ◌==◌, nat_eq, Text, text_eq,
}
use frego_finance.Context.{TenantInfo, Context, tenant_key, Item, tenant_item, value, with_value}

unfoldable pub with_tenant : Context → Text → Text → Text → Context
with_tenant ctx id schema display_name =
    with_value ctx tenant_key
      (tenant_item (record { id = id; schema = schema; display_name = display_name }))

-- `ok` is false if no tenant is stored or the stored identifier is empty.
abbrev as_tenant : Option Item → Option TenantInfo
as_tenant none = none
as_tenant (some (tenant_item info)) = if info.id == [] then none else some info
as_tenant (some _) = none

unfoldable pub tenant_from_context : Context → Text × Text × Bool
unfolding value
tenant_from_context ctx = elim (as_tenant (value ctx tenant_key)) [
  | none ↦ ([], [], false)
  | some info ↦ (info.id, info.schema, true)
]

unfoldable pub tenant_display_name_from_context : Context → Text × Bool
unfolding value
tenant_display_name_from_context ctx = elim (as_tenant (value ctx tenant_key)) [
  | none ↦ ([], false)
  | some info ↦ (info.display_name, true)
]

-- A stored tenant is read back exactly if its identifier is not empty; otherwise both readers
-- report that there is none and give empty texts, even if an outer context held a tenant.
pub tenant_from_context-with_tenant :
    (ctx : Context) (id schema name : Text)
    → (tenant_from_context (with_tenant ctx id schema name)
        ≡ (if id == [] then ([], [], false) else (id, schema, true)))
      × (tenant_display_name_from_context (with_tenant ctx id schema name)
          ≡ (if id == [] then ([], false) else (name, true)))
unfolding tenant_from_context tenant_display_name_from_context with_tenant
tenant_from_context-with_tenant ctx id schema name = (ground arith, ground arith)

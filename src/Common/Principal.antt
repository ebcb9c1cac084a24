-- ===== src/Common/Principal.antt =====
-- internal/common/principal.go.
use frego_finance.Prelude.{
  ◌≡◌, refl, Bool, true, false, Option, none, some, [], nat_eq, Text, text_eq, contains,
}
use frego_finance.Context.Claims.{end}
use frego_finance.Context.{
  Principal, Context, Key, principal_key, Item, principal_item, value, with_value, same_key,
}

-- Principal{}
abbrev pub no_principal : Principal
no_principal = record {
  username = [];
  subject = [];
  email = [];
  tenant_id = [];
  roles = [];
  scopes = [];
  claims = end;
}

unfoldable pub has_role : Principal → Text → Bool
unfolding contains
has_role p role = contains p.roles role

unfoldable pub with_principal : Context → Principal → Context
with_principal ctx p = with_value ctx principal_key (principal_item p)

abbrev as_principal : Option Item → Principal × Bool
as_principal none = (no_principal, false)
as_principal (some (principal_item p)) = (p, true)
as_principal (some _) = (no_principal, false)

unfoldable pub principal_from_context : Context → Principal × Bool
unfolding value
principal_from_context ctx = as_principal (value ctx principal_key)

-- A stored principal is read back, whatever the context held before, and values that are stored
-- later under other keys do not hide it.
pub principal_from_context-with_principal :
    (ctx : Context) (p : Principal) (key : Key) (item : Item)
    → same_key key principal_key ≡ false
    → (principal_from_context (with_principal ctx p) ≡ (p, true))
      × (principal_from_context (with_value (with_principal ctx p) key item) ≡ (p, true))
unfolding principal_from_context with_principal
principal_from_context-with_principal ctx p key item other = (refl, rw other)

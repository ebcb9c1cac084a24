-- ===== src/Context.antt =====
-- A request's context.Context: the chain of values that context.WithValue builds. Each package
-- keeps its values under a key type of its own, and two values stand under plain string keys.
-- Models the values of internal/common/principal.go, internal/common/tenant.go,
-- internal/logging/logger.go, internal/server/tenant_middleware.go and internal/api/finance.gen.go.
pub mod Claims
use frego_finance.Prelude.{
  Bool, true, false, List, [], ◌∷◌, Option, none, some, Text, ◌==◌, text_eq, if◌then◌else◌,
}
use frego_finance.Context.Claims.{Entries}
pub use frego_finance.Slog.{Logger}

-- uuid.UUID: sixteen bytes.
abbrev pub Uuid : Type 0
Uuid = Text

-- Principal of internal/common/principal.go
pub record Principal : Type 0 where
  pub username : Text
  pub subject : Text
  pub email : Text
  pub tenant_id : Text
  pub roles : List Text
  pub scopes : List Text
  pub claims : Entries

-- tenantInfo of internal/common/tenant.go
pub record TenantInfo : Type 0 where
  pub id : Text
  pub schema : Text
  pub display_name : Text

pub data Key : Type 0 where
  principal_key tenant_key logger_key : Key
  named : Text → Key

pub data Item : Type 0 where
  principal_item : Principal → Item
  tenant_item : TenantInfo → Item
  logger_item : Logger → Item
  uuid_item : Uuid → Item
  texts_item : List Text → Item

unfoldable pub same_key : Key → Key → Bool
same_key principal_key principal_key = true
same_key tenant_key tenant_key = true
same_key logger_key logger_key = true
same_key (named a) (named b) = a == b
same_key _ _ = false

abbrev pub Context : Type 0
Context = List (Key × Item)

-- context.WithValue
abbrev pub with_value : Context → Key → Item → Context
with_value ctx key item = (key, item) ∷ ctx

-- ctx.Value: the value that was stored last under the key
unfoldable pub value : Context → Key → Option Item
unfolding same_key
value [] key = none
value ((k, item) ∷ ctx) key = if same_key k key then some item else value ctx key

-- ===== src/Db/Sessions.antt =====
-- internal/db/tenant_session.go, over the answers of the registry and of the service database.
pub mod Laws
pub mod Park
use frego_finance.Prelude.{
  Bool, true, false, Option, none, some, List, [], ◌∷◌, ◌++◌, if◌then◌else◌, ◌==◌, nat_eq, Text,
  text_eq, codes, Result, ok, err,
}
use frego_finance.Context.{Uuid}
use frego_finance.Db.Query.{Event, acquired, released, executed, QueryError, no_rows, query_failed}

pub record TenantInfo : Type 0 where
  pub tenant_id : Uuid
  pub tenant_slug : Text
  pub tenant_name : Text
  pub contact_email : Option Text
  pub modules_subscribed : List Text
  pub is_active : Bool

pub data SessionError : Type 0 where
  unknown_service : Text → SessionError
  not_subscribed : Uuid → Text → SessionError
  registry_failed : Text → SessionError
  no_schema : Uuid → Text → SessionError
  acquire_failed : Text → SessionError
  search_path_failed : Text → SessionError
  verify_failed : QueryError → SessionError
  no_access : Uuid → Text → SessionError
  not_found : Uuid → SessionError
  info_failed : Text → SessionError

-- What the two pools answer. `schema_of column tenant service` is the query of getTenantSchema;
-- `quote` is the Sanitize of a pgx.Identifier of one part.
pub record Pools : Type 0 where
  pub schema_of : Text → Uuid → Text → Result QueryError Text
  pub has_module : Uuid → Text → Result QueryError Bool
  pub info_of : Uuid → Result QueryError TenantInfo
  pub acquire : Result Text (Unit {0})
  pub exec : Text → Result Text (Unit {0})
  pub quote : Text → Text

pub record TenantSessionManager : Type 0 where
  pub pools : Pools
  pub service_name : Text

unfoldable pub new_tenant_session_manager : Pools → Text → TenantSessionManager
new_tenant_session_manager pools service_name = record {
  pools = pools;
  service_name = service_name;
}

-- The column that holds the schema of a service.
unfoldable pub schema_column : Text → Option Text
schema_column service =
    if service == codes "finance"
    then some (codes "finance_schema")
    else if service == codes "operations"
    then some (codes "operations_schema")
    else if service == codes "inventory"
    then some (codes "inventory_schema")
    else if service == codes "hrms"
    then some (codes "hrms_schema")
    else none

abbrev pub checked_schema : Uuid → Text → Result QueryError Text → Result SessionError Text
checked_schema tenant service (ok schema) =
    if schema == [] then err (no_schema tenant service) else ok schema
checked_schema tenant service (err no_rows) = err (not_subscribed tenant service)
checked_schema tenant service (err (query_failed e)) = err (registry_failed e)

abbrev pub with_column : TenantSessionManager → Uuid → Option Text → Result SessionError Text
with_column m tenant none = err (unknown_service m.service_name)
with_column m tenant (some column) =
    checked_schema tenant m.service_name (m.pools.schema_of column tenant m.service_name)

unfoldable pub get_tenant_schema : TenantSessionManager → Uuid → Result SessionError Text
get_tenant_schema m tenant = with_column m tenant (schema_column m.service_name)

-- A connection that was lent, by the command that set its search path.
pub record Conn : Type 0 where
  pub search_path : Text

abbrev pub search_path_command : Pools → Text → Text
search_path_command pools schema =
    codes "SET search_path TO " ++ (pools.quote schema ++ codes ", public")

pub record Session : Type 0 where
  pub answer : Result SessionError Conn
  pub events : List Event

abbrev pub after_set : Text → Result Text (Unit {0}) → Session
after_set command (ok _) = record {
  answer = ok (record { search_path = command });
  events = acquired ∷ executed command true ∷ [];
}
after_set command (err e) = record {
  answer = err (search_path_failed e);
  events = acquired ∷ executed command false ∷ released ∷ [];
}

abbrev pub after_acquire : Pools → Text → Result Text (Unit {0}) → Session
after_acquire pools schema (ok _) =
    let command = search_path_command pools schema in after_set command (pools.exec command)
after_acquire pools schema (err e) = record { answer = err (acquire_failed e); events = [] }

abbrev pub with_schema : Pools → Result SessionError Text → Session
with_schema pools (ok schema) = after_acquire pools schema pools.acquire
with_schema pools (err e) = record { answer = err e; events = [] }

unfoldable pub get_session : TenantSessionManager → Uuid → Session
get_session m tenant = with_schema m.pools (get_tenant_schema m tenant)

unfoldable pub release_session : Option Conn → List Event
release_session none = []
release_session (some conn) = released ∷ []

abbrev pub checked_access : Uuid → Text → Result QueryError Bool → Result SessionError (Unit {0})
checked_access tenant service (ok true) = ok tt
checked_access tenant service (ok false) = err (no_access tenant service)
checked_access tenant service (err e) = err (verify_failed e)

unfoldable pub verify_tenant_access : TenantSessionManager → Uuid → Result SessionError (Unit {0})
verify_tenant_access m tenant =
    checked_access tenant m.service_name (m.pools.has_module tenant m.service_name)

abbrev pub found_info : Uuid → Result QueryError TenantInfo → Result SessionError TenantInfo
found_info tenant (ok info) = ok info
found_info tenant (err no_rows) = err (not_found tenant)
found_info tenant (err (query_failed e)) = err (info_failed e)

unfoldable pub get_tenant_info : TenantSessionManager → Uuid → Result SessionError TenantInfo
get_tenant_info m tenant = found_info tenant (m.pools.info_of tenant)

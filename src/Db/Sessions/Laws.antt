-- ===== src/Db/Sessions/Laws.antt =====
-- Sessions: which schema they see, and that no connection is lost.
use frego_finance.Prelude.{
  ◌≡◌, refl, ap, ◌∙◌, ◌≢◌, ◌↔◌, true, Option, none, some, ◌⊎◌, inl, inr, Bool-cases, ◌==◌, codes,
  text_beq, List, [], ◌∷◌, arith, nat_eq, Text, text_beq_iff, text_eq, Result, ok, err,
}
use frego_finance.Context.{Uuid}
use frego_finance.Db.Query.{Event, acquires, releases, acquired, executed, QueryError}
use frego_finance.Db.Sessions.{
  TenantSessionManager, SessionError, Conn, schema_column, checked_schema, with_column,
  get_tenant_schema, get_session, search_path_command, with_schema, after_acquire, after_set,
}

-- The column of the tenant registry that holds the schemas of a service.
abbrev pub IsColumnOf : (service column : Text) → Type 0
IsColumnOf service column =
    ((service ≡ codes "finance") × (column ≡ codes "finance_schema"))
    ⊎ ((service ≡ codes "operations") × (column ≡ codes "operations_schema"))
    ⊎ ((service ≡ codes "inventory") × (column ≡ codes "inventory_schema"))
    ⊎ ((service ≡ codes "hrms") × (column ≡ codes "hrms_schema"))

-- The registry's schema for the tenant and the service: the service has a column of its own, and the
-- registry has a row with a text in it that is not empty.
abbrev pub HasSchema : TenantSessionManager → Uuid → Text → Type 0
HasSchema m tenant schema =
    (column : Text) × IsColumnOf m.service_name column
    × (m.pools.schema_of column tenant m.service_name ≡ ok schema)
    × (schema ≢ [])

schema_column-IsColumnOf :
    (service column : Text) → schema_column service ≡ some column → IsColumnOf service column
unfolding schema_column
schema_column-IsColumnOf service column h = elim (Bool-cases (service == codes "finance")) [
  | inl a ↦ inl ((text_beq_iff service _).0 a, cc (rw a at h))
  | inr a ↦ elim (Bool-cases (service == codes "operations")) [
    | inl b ↦ inr (inl ((text_beq_iff service _).0 b, cc (rw (a, b) at h)))
    | inr b ↦ elim (Bool-cases (service == codes "inventory")) [
      | inl c ↦ inr (inr (inl ((text_beq_iff service _).0 c, cc (rw (a, b, c) at h))))
      | inr c ↦ elim (Bool-cases (service == codes "hrms")) [
        | inl d ↦ inr (inr (inr ((text_beq_iff service _).0 d, cc (rw (a, b, c, d) at h))))
        | inr d ↦ absurd (cc (rw (a, b, c, d) at h))
      ]
    ]
  ]
]

pub IsColumnOf-schema_column :
    (service column : Text) → IsColumnOf service column → schema_column service ≡ some column
unfolding schema_column text_beq
IsColumnOf-schema_column service column (inl (a, e)) = rw (a, e)
IsColumnOf-schema_column service column (inr (inl (a, e))) = rw (a, e)
IsColumnOf-schema_column service column (inr (inr (inl (a, e)))) = rw (a, e)
IsColumnOf-schema_column service column (inr (inr (inr (a, e)))) = rw (a, e)

checked_schema_sound :
    (tenant : Uuid) (service schema : Text) (r : Result QueryError Text)
    → checked_schema tenant service r ≡ ok schema
    → (r ≡ ok schema) × (schema ≢ [])
checked_schema_sound tenant service schema r h = ground (arith, text_beq_iff schema [])

checked_schema_complete :
    (tenant : Uuid) (service schema : Text)
    → schema ≢ []
    → checked_schema tenant service (ok schema) ≡ ok schema
checked_schema_complete tenant service schema h = ground (arith, text_beq_iff schema [])

with_column_sound :
    (m : TenantSessionManager) (tenant : Uuid) (schema : Text) (found : Option Text)
    → schema_column m.service_name ≡ found
    → with_column m tenant found ≡ ok schema
    → HasSchema m tenant schema
with_column_sound m tenant schema none e h = absurd (let k = h in cc)
with_column_sound m tenant schema (some column) e h =
    let (answer, some_rune) = checked_schema_sound tenant m.service_name schema _ h in
    (column, schema_column-IsColumnOf m.service_name column e, answer, some_rune)

get_tenant_schema_sound :
    (m : TenantSessionManager) (tenant : Uuid) (schema : Text)
    → get_tenant_schema m tenant ≡ ok schema
    → HasSchema m tenant schema
unfolding get_tenant_schema
get_tenant_schema_sound m tenant schema h = with_column_sound m tenant schema _ refl h

get_tenant_schema_complete :
    (m : TenantSessionManager) (tenant : Uuid) (schema : Text)
    → HasSchema m tenant schema
    → get_tenant_schema m tenant ≡ ok schema
unfolding get_tenant_schema
get_tenant_schema_complete m tenant schema (column, e, found, some_rune) =
    ap (with_column m tenant) (IsColumnOf-schema_column m.service_name column e)
    ∙ ap (checked_schema tenant m.service_name) found
    ∙ checked_schema_complete tenant m.service_name schema some_rune

-- The schema of a tenant is given exactly when the registry has it: the service is "finance",
-- "operations", "inventory" or "hrms", the row is found in the column of the service, which is its
-- name and "_schema", and the text there is not empty.
pub get_tenant_schema-eq-ok_iff :
    (m : TenantSessionManager) (tenant : Uuid) (schema : Text)
    → (get_tenant_schema m tenant ≡ ok schema) ↔ HasSchema m tenant schema
get_tenant_schema-eq-ok_iff m tenant schema =
    (get_tenant_schema_sound m tenant schema, get_tenant_schema_complete m tenant schema)

-- A session was given: one connection is lent, and the one command that ran on it set its search
-- path to the quoted schema of the tenant.
abbrev pub IsGiven : TenantSessionManager → Uuid → Conn → List Event → Type 0
IsGiven m tenant conn events =
    (schema : Text) × HasSchema m tenant schema
    × (conn.search_path ≡ search_path_command m.pools schema)
    × (events ≡ acquired ∷ executed (search_path_command m.pools schema) true ∷ [])

-- No session was given: as many connections were released as acquired.
abbrev pub IsRefused : SessionError → List Event → Type 0
IsRefused e events = acquires events ≡ releases events

abbrev pub IsSession : TenantSessionManager → Uuid → Result SessionError Conn → List Event → Type 0
IsSession m tenant (ok conn) events = IsGiven m tenant conn events
IsSession m tenant (err e) events = IsRefused e events

after_set-IsSession :
    (m : TenantSessionManager) (tenant : Uuid) (schema : Text) (r : Result Text (Unit {0}))
    → HasSchema m tenant schema
    → IsSession m tenant
        (after_set (search_path_command m.pools schema) r).answer
        (after_set (search_path_command m.pools schema) r).events
after_set-IsSession m tenant schema (ok x) h = (schema, h, refl, refl)
after_set-IsSession m tenant schema (err e) h = refl

after_acquire-IsSession :
    (m : TenantSessionManager) (tenant : Uuid) (schema : Text) (r : Result Text (Unit {0}))
    → HasSchema m tenant schema
    → IsSession m tenant
        (after_acquire m.pools schema r).answer
        (after_acquire m.pools schema r).events
after_acquire-IsSession m tenant schema (ok x) h =
    after_set-IsSession m tenant schema (m.pools.exec (search_path_command m.pools schema)) h
after_acquire-IsSession m tenant schema (err e) h = refl

with_schema-IsSession :
    (m : TenantSessionManager) (tenant : Uuid) (r : Result SessionError Text)
    → get_tenant_schema m tenant ≡ r
    → IsSession m tenant (with_schema m.pools r).answer (with_schema m.pools r).events
with_schema-IsSession m tenant (ok schema) e =
    after_acquire-IsSession m tenant schema m.pools.acquire
      (get_tenant_schema_sound m tenant schema e)
with_schema-IsSession m tenant (err x) e = refl

-- A session is given with exactly one connection lent, whose search path was set to the schema that
-- the registry has for the tenant; in every other case each connection that was acquired has been
-- released.
pub get_session-IsSession :
    (m : TenantSessionManager) (tenant : Uuid)
    → IsSession m tenant (get_session m tenant).answer (get_session m tenant).events
unfolding get_session
get_session-IsSession m tenant = with_schema-IsSession m tenant (get_tenant_schema m tenant) refl

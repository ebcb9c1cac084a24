-- ===== src/Db/Sessions/Park/Track.antt =====
-- Where a call of GetSession can stand: what it holds, and what it still does.
use frego_finance.Prelude.{
  ◌≡◌, refl, ◌⊎◌, inl, inr, true, false, Option, none, some, List, [], ◌∷◌, ◌++◌, nat_eq, Text,
  text_eq, codes, Result, ok, err,
}
use frego_finance.Context.{Uuid}
use frego_finance.Db.Query.{Event, acquired, released, executed}
use frego_finance.Db.Sessions.{
  Pools, TenantSessionManager, SessionError, Conn, search_path_command, get_session, with_schema,
  after_acquire, after_set,
}
use frego_finance.Db.Sessions.Laws.{HasSchema, IsSession, get_session-IsSession}
use frego_finance.Db.Sessions.Park.{Backend, Lease, Work}

-- What a call that gives no session does with connections: nothing, or it gives back the one it took.
abbrev pub IsQuiet : Result SessionError Conn → List Event → Type 0
IsQuiet (ok conn) es = Unit {0}
IsQuiet (err e) es =
    (es ≡ []) ⊎ ((command : Text) × (es ≡ acquired ∷ executed command false ∷ released ∷ []))

after_set-IsQuiet :
    (command : Text) (r : Result Text (Unit {0}))
    → IsQuiet (after_set command r).answer (after_set command r).events
after_set-IsQuiet command (ok x) = tt
after_set-IsQuiet command (err e) = inr (command, refl)

after_acquire-IsQuiet :
    (pools : Pools) (schema : Text) (r : Result Text (Unit {0}))
    → IsQuiet (after_acquire pools schema r).answer (after_acquire pools schema r).events
after_acquire-IsQuiet pools schema (ok x) =
    let command = search_path_command pools schema in after_set-IsQuiet command (pools.exec command)
after_acquire-IsQuiet pools schema (err e) = inl refl

with_schema-IsQuiet :
    (pools : Pools) (r : Result SessionError Text)
    → IsQuiet (with_schema pools r).answer (with_schema pools r).events
with_schema-IsQuiet pools (ok schema) = after_acquire-IsQuiet pools schema pools.acquire
with_schema-IsQuiet pools (err e) = inl refl

get_session-IsQuiet :
    (m : TenantSessionManager) (tenant : Uuid)
    → IsQuiet (get_session m tenant).answer (get_session m tenant).events
unfolding get_session
get_session-IsQuiet m tenant = with_schema-IsQuiet m.pools _

module _ (m : TenantSessionManager) where
  abbrev pub path_of : Text → Text
  path_of schema = m.pools.quote schema ++ codes ", public"

  -- The session is told to be on a schema that the registry has for the tenant.
  abbrev pub IsTold : Uuid → Conn → Text → Type 0
  IsTold tenant conn schema =
      HasSchema m tenant schema × (conn.search_path ≡ search_path_command m.pools schema)

  -- The session's connection is on the search path of the schema that the registry has for the
  -- session's tenant.
  abbrev pub IsIsolated : Lease → Type 0
  IsIsolated l =
      (schema : Text) × IsTold l.tenant l.conn schema × (l.backend.search_path ≡ path_of schema)

  -- What a call holds fits the events that are still to come.
  abbrev pub OnTrack : Uuid → Result SessionError Conn → Option Backend → List Event → Type 0
  OnTrack tenant (ok conn) none todo =
      (schema : Text) × IsTold tenant conn schema
      × (todo ≡ acquired ∷ executed (search_path_command m.pools schema) true ∷ [])
  OnTrack tenant (ok conn) (some c) todo =
      (schema : Text) × IsTold tenant conn schema
      × ((todo ≡ executed (search_path_command m.pools schema) true ∷ [])
          ⊎ ((todo ≡ []) × (c.search_path ≡ path_of schema)))
  OnTrack tenant (err e) none todo =
      (todo ≡ []) ⊎ ((command : Text) × (todo ≡ acquired ∷ executed command false ∷ released ∷ []))
  OnTrack tenant (err e) (some c) todo =
      ((command : Text) × (todo ≡ executed command false ∷ released ∷ [])) ⊎ (todo ≡ released ∷ [])

  abbrev pub IsOnTrack : Work → Type 0
  IsOnTrack w = OnTrack w.tenant w.answer w.held w.todo

  OnTrack-first :
      (tenant : Uuid) (answer : Result SessionError Conn) (es : List Event)
      → IsSession m tenant answer es
      → IsQuiet answer es
      → OnTrack tenant answer none es
  OnTrack-first tenant (ok conn) es (schema, has, told, e) q = (schema, (has, told), e)
  OnTrack-first tenant (err x) es given q = q

pub get_session-OnTrack :
    (m : TenantSessionManager) (tenant : Uuid)
    → OnTrack m tenant (get_session m tenant).answer none (get_session m tenant).events
get_session-OnTrack m tenant =
    OnTrack-first m tenant _ _ (get_session-IsSession m tenant) (get_session-IsQuiet m tenant)

-- ===== src/Db/Sessions/Park.antt =====
-- The sessions that are open at a time: what the calls of internal/db/tenant_session.go do to the
-- connections of the service pool.
pub mod Counts
pub mod Track
pub mod Invariant
pub mod Isolation
pub mod Separation
use frego_finance.Prelude.{
  ℕ, zero, suc, Bool, true, false, Option, none, some, List, [], ◌∷◌, ◌++◌, if◌then◌else◌, ◌==◌,
  nat_eq, Text, text_eq, Result, ok, err,
}
use frego_finance.Context.{Uuid}
use frego_finance.Db.Query.{Event, acquired, released, executed}
use frego_finance.Db.Sessions.{
  TenantSessionManager, SessionError, Conn, Session, get_session, release_session,
}

-- A connection to the database, with the search path that is set on it.
pub record Backend : Type 0 where
  pub id : ℕ
  pub search_path : Text

-- A session that GetSession has given and that was not released.
pub record Lease : Type 0 where
  pub tenant : Uuid
  pub conn : Conn
  pub backend : Backend

-- A call of GetSession at work: what it will answer, the events that are still to come, and the
-- connection that it holds.
pub record Work : Type 0 where
  pub tenant : Uuid
  pub answer : Result SessionError Conn
  pub todo : List Event
  pub held : Option Backend

-- The connections that are idle, those that calls hold, those that are lent and those that the pool
-- has closed; `made` were made so far, and each is known by its number.
pub record Park : Type 0 where
  pub idle : List Backend
  pub working : List Work
  pub lent : List Lease
  pub gone : List Backend
  pub made : ℕ

abbrev pub empty : Park
empty = record { idle = []; working = []; lent = []; gone = []; made = 0 }

-- The pool while one call works on it, with the connection that the call holds.
pub record Hand : Type 0 where
  pub idle : List Backend
  pub gone : List Backend
  pub made : ℕ
  pub held : Option Backend

abbrev pub with_kept : {A : Type 0} → A → Option (A × List A) → Option (A × List A)
with_kept x none = none
with_kept x (some (y, rest)) = some (y, x ∷ rest)

unfoldable pub take_at : {A : Type 0} → ℕ → List A → Option (A × List A)
take_at n [] = none
take_at zero (x ∷ xs) = some (x, xs)
take_at (suc n) (x ∷ xs) = with_kept x (take_at n xs)

-- The lease of a connection, and the others.
unfoldable pub take_lease : ℕ → List Lease → Option (Lease × List Lease)
take_lease id [] = none
take_lease id (l ∷ ls) =
    let later = with_kept l (take_lease id ls) in if l.backend.id == id then some (l, ls) else later

-- One move: GetSession is called for a tenant, with what the pool and the database will answer it; a
-- call that is at work goes on by its next event, or returns; or ReleaseSession is called for the
-- session on a connection. A call that waits because the pool has as many connections as it may have
-- makes no move. Where it goes on, the pool picks an idle connection or makes one, and keeps a connection
-- that comes back or closes it. Between, it closes idle connections and makes new ones, and another
-- user of the pool takes an idle connection and leaves it with some search path.
pub data Move : Type 0 where
  arrives :
      (tenant : Uuid) (acquire : Result Text (Unit {0})) (exec : Text → Result Text (Unit {0}))
      → Move
  goes_on : (who pick : ℕ) (keep : Bool) → Move
  closes : (keep : Bool) (id : ℕ) → Move
  drops : (pick : ℕ) → Move
  makes : Move
  uses : (pick : ℕ) (left : Text) → Move

-- The manager, with the answers that a call meets.
abbrev pub meeting :
    TenantSessionManager
    → Result Text (Unit {0})
    → (Text → Result Text (Unit {0}))
    → TenantSessionManager
meeting m acquire exec = record m { pools = record m.pools { acquire = acquire; exec = exec } }

abbrev pub lease_for : Uuid → Result SessionError Conn → Option Backend → List Lease
lease_for tenant (ok conn) (some c) = record { tenant = tenant; conn = conn; backend = c } ∷ []
lease_for tenant (ok conn) none = []
lease_for tenant (err e) held = []

-- `fresh_path` is the search path of a new connection, and `effect` the search path after a command
-- that was executed without an error.
module _ (fresh_path : Text) (effect : (command path : Text) → Text) where
  abbrev pub taken : Hand → Option (Backend × List Backend) → Hand
  taken h none = record h {
    made = suc h.made;
    held = some (record { id = h.made; search_path = fresh_path });
  }
  taken h (some (c, rest)) = record h { idle = rest; held = some c }

  abbrev pub ran : Text → Option Backend → Option Backend
  ran command none = none
  ran command (some c) = some (record c { search_path = effect command c.search_path })

  abbrev pub given_back : Bool → Hand → Option Backend → Hand
  given_back keep h none = h
  given_back true h (some c) = record h { idle = c ∷ h.idle; held = none }
  given_back false h (some c) = record h { gone = c ∷ h.gone; held = none }

  unfoldable pub act : ℕ → Bool → Hand → Event → Hand
  unfolding take_at
  act pick keep h acquired = taken h (take_at pick h.idle)
  act pick keep h (executed command true) = record h { held = ran command h.held }
  act pick keep h (executed command false) = h
  act pick keep h released = given_back keep h h.held

  abbrev pub bare : Park → Option Backend → Hand
  bare p held = record { idle = p.idle; gone = p.gone; made = p.made; held = held }

  abbrev pub came : Park → Uuid → Session → Park
  came p tenant s = record p {
    working =
        record { tenant = tenant; answer = s.answer; todo = s.events; held = none } ∷ p.working;
  }

  -- A call goes on with these events, once the pool and its connection are as in this hand.
  abbrev pub handed : Park → Uuid → Result SessionError Conn → List Work → List Event → Hand → Park
  handed p tenant answer rest todo h = record p {
    idle = h.idle;
    gone = h.gone;
    made = h.made;
    working = record { tenant = tenant; answer = answer; todo = todo; held = h.held } ∷ rest;
  }

  -- A call goes on; `rest` are the others at work. One that has no events left returns.
  abbrev pub proceeded :
      ℕ
      → Bool
      → Park
      → Uuid
      → Result SessionError Conn
      → Option Backend
      → List Work
      → List Event
      → Park
  proceeded pick keep p tenant answer held rest [] = record p {
    working = rest;
    lent = lease_for tenant answer held ++ p.lent;
  }
  proceeded pick keep p tenant answer held rest (e ∷ es) =
      handed p tenant answer rest es (act pick keep (bare p held) e)

  abbrev pub went_on : ℕ → Bool → Park → Option (Work × List Work) → Park
  went_on pick keep p none = p
  went_on pick keep p (some (w, rest)) = proceeded pick keep p w.tenant w.answer w.held rest w.todo

  -- What ReleaseSession does with the connection of a session.
  abbrev pub let_go : Bool → Hand → List Event → Hand
  let_go keep h [] = h
  let_go keep h (e ∷ es) = let_go keep (act 0 keep h e) es

  abbrev pub closed : Bool → Park → Option (Lease × List Lease) → Park
  closed keep p none = p
  closed keep p (some (l, rest)) =
      let h = let_go keep (bare p (some l.backend)) (release_session (some l.conn)) in
      record p { idle = h.idle; lent = rest; gone = h.gone; made = h.made }

  abbrev pub dropped : Park → Option (Backend × List Backend) → Park
  dropped p none = p
  dropped p (some (c, rest)) = record p { idle = rest; gone = c ∷ p.gone }

  abbrev pub used : Text → Park → Option (Backend × List Backend) → Park
  used left p none = p
  used left p (some (c, rest)) = record p { idle = record c { search_path = left } ∷ rest }

  unfoldable pub step : TenantSessionManager → Park → Move → Park
  unfolding act take_at get_session release_session take_lease
  step m p (arrives tenant acquire exec) =
      came p tenant (get_session (meeting m acquire exec) tenant)
  step m p (goes_on who pick keep) = went_on pick keep p (take_at who p.working)
  step m p (closes keep id) = closed keep p (take_lease id p.lent)
  step m p (drops pick) = dropped p (take_at pick p.idle)
  step m p makes = record p {
    idle = record { id = p.made; search_path = fresh_path } ∷ p.idle;
    made = suc p.made;
  }
  step m p (uses pick left) = used left p (take_at pick p.idle)

  unfoldable pub run : TenantSessionManager → Park → List Move → Park
  unfolding step
  run m p [] = p
  run m p (c ∷ cs) = run m (step m p c) cs

-- ===== src/Db/Sessions/Park/Isolation.antt =====
-- Sessions of calls that run at the same time: none shares its connection, and each is on the schema
-- of its tenant.
use frego_finance.Prelude.{
  ℕ, Bool, true, false, Option, none, some, List, [], ◌∷◌, arith, nat_eq, Text, text_eq,
}
use frego_finance.Db.Sessions.{TenantSessionManager, release_session}
use frego_finance.Db.Sessions.Park.{
  Backend, Lease, Work, Park, empty, take_at, take_lease, Move, arrives, goes_on, closes, drops,
  makes, uses, meeting, act, went_on, closed, dropped, used, step, run,
}
use frego_finance.Db.Sessions.Park.Counts.{
  one, one_held, once_below-suc, IsTakenOut, take_at-IsTakenOut, take_lease-IsTakenOut,
}
use frego_finance.Db.Sessions.Park.Invariant.{Inv, Sets, proceeded-Inv}
use frego_finance.Db.Sessions.Park.Track.{IsIsolated, IsOnTrack, get_session-OnTrack}

module _ (fresh_path : Text) (effect : (command path : Text) → Text) (m : TenantSessionManager)
    (p : Park) (inv : Inv m p) where
  went_on-Inv :
      Sets effect
      → (pick : ℕ) (keep : Bool) (o : Option (Work × List Work))
      → ((i : ℕ) → IsTakenOut (λ (w : Work). one_held i w.held) (IsOnTrack m) p.working o)
      → Inv m (went_on fresh_path effect pick keep p o)
  went_on-Inv sets pick keep none out = inv
  went_on-Inv sets pick keep (some (w, rest)) out =
      let (track, others) = (out 0).1 inv.tracked in
      proceeded-Inv fresh_path effect m p inv w.tenant rest others sets pick keep w.answer w.held
        w.todo track (λ i. (out i).0)

  closed-Inv :
      (keep : Bool) (o : Option (Lease × List Lease))
      → ((i : ℕ) → IsTakenOut (λ (l : Lease). one i l.backend) (IsIsolated m) p.lent o)
      → Inv m (closed fresh_path effect keep p o)
  unfolding act release_session
  closed-Inv keep none out = inv
  closed-Inv true (some (l, rest)) out = record {
    conserved = λ i. omega (arith, (out i).0, inv.conserved i);
    tracked = inv.tracked;
    isolated = ((out 0).1 inv.isolated).1;
  }
  closed-Inv false (some (l, rest)) out = record {
    conserved = λ i. omega (arith, (out i).0, inv.conserved i);
    tracked = inv.tracked;
    isolated = ((out 0).1 inv.isolated).1;
  }

  dropped-Inv :
      (o : Option (Backend × List Backend))
      → ((i : ℕ) → IsTakenOut (one i) (λ c. Unit {0}) p.idle o)
      → Inv m (dropped fresh_path effect p o)
  dropped-Inv none out = inv
  dropped-Inv (some (c, rest)) out = record {
    conserved = λ i. omega (arith, (out i).0, inv.conserved i);
    tracked = inv.tracked;
    isolated = inv.isolated;
  }

  used-Inv :
      (left : Text) (o : Option (Backend × List Backend))
      → ((i : ℕ) → IsTakenOut (one i) (λ c. Unit {0}) p.idle o)
      → Inv m (used fresh_path effect left p o)
  used-Inv left none out = inv
  used-Inv left (some (c, rest)) out = record {
    conserved = λ i. omega (arith, (out i).0, inv.conserved i);
    tracked = inv.tracked;
    isolated = inv.isolated;
  }

  step-Inv : Sets effect → (c : Move) → Inv m (step fresh_path effect m p c)
  unfolding step
  step-Inv sets (arrives tenant acquire exec) = record {
    conserved = λ i. omega (arith, inv.conserved i);
    tracked = (get_session-OnTrack (meeting m acquire exec) tenant, inv.tracked);
    isolated = inv.isolated;
  }
  step-Inv sets (goes_on who pick keep) =
      went_on-Inv sets pick keep (take_at who p.working)
        (λ i. take_at-IsTakenOut (λ (w : Work). one_held i w.held) (IsOnTrack m) who p.working)
  step-Inv sets (closes keep id) =
      closed-Inv keep (take_lease id p.lent)
        (λ i. take_lease-IsTakenOut (λ (l : Lease). one i l.backend) (IsIsolated m) id p.lent)
  step-Inv sets (drops pick) =
      dropped-Inv (take_at pick p.idle)
        (λ i. take_at-IsTakenOut (one i) (λ c. Unit {0}) pick p.idle)
  step-Inv sets makes = record {
    conserved = λ i. omega (arith, inv.conserved i, once_below-suc i p.made);
    tracked = inv.tracked;
    isolated = inv.isolated;
  }
  step-Inv sets (uses pick left) =
      used-Inv left (take_at pick p.idle)
        (λ i. take_at-IsTakenOut (one i) (λ c. Unit {0}) pick p.idle)

empty-Inv : (m : TenantSessionManager) → Inv m empty
empty-Inv m = record { conserved = λ i. ground arith; tracked = tt; isolated = tt }

run_from :
    (fresh_path : Text) (effect : (command path : Text) → Text) (m : TenantSessionManager)
    → Sets effect
    → (cs : List Move) (p : Park) → Inv m p
    → Inv m (run fresh_path effect m p cs)
unfolding run
run_from fresh_path effect m sets [] p inv = inv
run_from fresh_path effect m sets (c ∷ cs) p inv =
    run_from fresh_path effect m sets cs (step fresh_path effect m p c)
      (step-Inv fresh_path effect m p inv sets c)

-- At every moment of any interleaving of calls of GetSession and ReleaseSession, for any tenants,
-- whatever connections the pool picks, makes and closes, whatever search paths other users of the
-- pool leave on idle connections, and whatever connections and commands fail: each connection that was
-- made is either idle, held by exactly one call, lent to exactly one session or closed, none is lost,
-- what a call holds fits what it still does, and the connection of every open session is on the search
-- path of the schema that the registry has for the session's tenant, also where another tenant had the
-- connection before. A search path command that was executed has set the path, and what a caller
-- executes on its own session leaves the path as it is.
pub run-Inv :
    (fresh_path : Text) (effect : (command path : Text) → Text) (m : TenantSessionManager)
    → Sets effect
    → (cs : List Move) → Inv m (run fresh_path effect m empty cs)
run-Inv fresh_path effect m sets cs = run_from fresh_path effect m sets cs empty (empty-Inv m)

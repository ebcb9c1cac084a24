-- ===== src/Db/Sessions/Park/Invariant.antt =====
-- What holds of the connections of the service pool at any moment, and is kept where one call goes on.
use frego_finance.Prelude.{
  ℕ, ◌+◌, ◌≡◌, sym, inl, inr, Bool, true, false, Option, none, some, List, [], ◌++◌, arith, refl,
  nat_eq, Text, text_eq, codes, All, Result, ok, err,
}
use mathlib.Core.Path.{subst}
use frego_finance.Context.{Uuid}
use frego_finance.Db.Query.{Event}
use frego_finance.Db.Sessions.{TenantSessionManager, SessionError, Conn}
use frego_finance.Db.Sessions.Park.{
  Backend, Work, Park, take_at, taken, given_back, act, bare, handed, proceeded,
}
use frego_finance.Db.Sessions.Park.Counts.{
  one, one_held, count, count_held, count_lent, once_below, once_below-suc, IsTakenOut,
  take_at-IsTakenOut,
}
use frego_finance.Db.Sessions.Park.Track.{path_of, IsIsolated, OnTrack, IsOnTrack}

-- Each connection that was made is idle, held by one call, lent to one session or closed; every call
-- at work is on track, and every session is isolated.
pub record Inv (m : TenantSessionManager) (p : Park) : Type 0 where
  pub conserved :
      (i : ℕ)
      → count i p.idle + (count_held i p.working + (count_lent i p.lent + count i p.gone))
        ≡ once_below i p.made
  pub tracked : All (IsOnTrack m) p.working
  pub isolated : All (IsIsolated m) p.lent

-- The command that GetSession executes sets the search path whatever it was before.
abbrev pub Sets : (effect : (command path : Text) → Text) → Type 0
Sets effect = (path old : Text) → effect (codes "SET search_path TO " ++ path) old ≡ path

module _ (fresh_path : Text) (effect : (command path : Text) → Text) (m : TenantSessionManager)
    (p : Park) (inv : Inv m p) where
  -- One call at work, and the others.
  module _ (tenant : Uuid) (rest : List Work) (tracked : All (IsOnTrack m) rest) where
    acquired-Inv :
        (answer : Result SessionError Conn) (es : List Event)
        → ((c : Backend) → OnTrack m tenant answer (some c) es)
        → ((i : ℕ) → count_held i p.working ≡ count_held i rest)
        → (o : Option (Backend × List Backend))
        → ((i : ℕ) → IsTakenOut (one i) (λ c. Unit {0}) p.idle o)
        → Inv m (
            handed fresh_path effect p tenant answer rest es
              (taken fresh_path effect (bare fresh_path effect p none) o))
    acquired-Inv answer es h k none out = record {
      conserved = λ i. omega (arith, inv.conserved i, k i, once_below-suc i p.made);
      tracked = (h _, tracked);
      isolated = inv.isolated;
    }
    acquired-Inv answer es h k (some (c, idle)) out = record {
      conserved = λ i. omega (arith, inv.conserved i, k i, (out i).0);
      tracked = (h c, tracked);
      isolated = inv.isolated;
    }

    released-Inv :
        (keep : Bool) (answer : Result SessionError Conn) (c : Backend)
        → OnTrack m tenant answer none []
        → ((i : ℕ) → count_held i p.working ≡ one i c + count_held i rest)
        → Inv m (
            handed fresh_path effect p tenant answer rest []
              (given_back fresh_path effect keep (bare fresh_path effect p (some c)) (some c)))
    released-Inv true answer c h k = record {
      conserved = λ i. omega (arith, inv.conserved i, k i);
      tracked = (h, tracked);
      isolated = inv.isolated;
    }
    released-Inv false answer c h k = record {
      conserved = λ i. omega (arith, inv.conserved i, k i);
      tracked = (h, tracked);
      isolated = inv.isolated;
    }

    abbrev Proceeds : ℕ → Bool → Result SessionError Conn → Option Backend → List Event → Type 0
    Proceeds pick keep answer held todo =
        Inv m (proceeded fresh_path effect pick keep p tenant answer held rest todo)

    pub proceeded-Inv :
        Sets effect
        → (pick : ℕ) (keep : Bool) (answer : Result SessionError Conn) (held : Option Backend)
          (todo : List Event)
        → OnTrack m tenant answer held todo
        → ((i : ℕ) → count_held i p.working ≡ one_held i held + count_held i rest)
        → Proceeds pick keep answer held todo
    unfolding act
    proceeded-Inv sets pick keep (ok conn) none todo (schema, told, e) k =
        subst (Proceeds pick keep (ok conn) none) (sym e) (
          acquired-Inv (ok conn) _ (λ c. (schema, told, inl refl)) (λ i. omega (arith, k i))
            (take_at pick p.idle) (λ i. take_at-IsTakenOut (one i) (λ c. Unit {0}) pick p.idle))
    proceeded-Inv sets pick keep (ok conn) (some c) todo (schema, told, inl e) k =
        subst (Proceeds pick keep (ok conn) (some c)) (sym e) (record {
          conserved = λ i. omega (arith, inv.conserved i, k i);
          tracked = ((schema, told, inr (refl, sets (path_of m schema) c.search_path)), tracked);
          isolated = inv.isolated;
        })
    proceeded-Inv sets pick keep (ok conn) (some c) todo (schema, told, inr (e, on_path)) k =
        subst (Proceeds pick keep (ok conn) (some c)) (sym e) (record {
          conserved = λ i. omega (arith, inv.conserved i, k i);
          tracked = tracked;
          isolated = ((schema, told, on_path), inv.isolated);
        })
    proceeded-Inv sets pick keep (err x) none todo (inl e) k =
        subst (Proceeds pick keep (err x) none) (sym e) (record {
          conserved = λ i. omega (arith, inv.conserved i, k i);
          tracked = tracked;
          isolated = inv.isolated;
        })
    proceeded-Inv sets pick keep (err x) none todo (inr (command, e)) k =
        subst (Proceeds pick keep (err x) none) (sym e) (
          acquired-Inv (err x) _ (λ c. inl (command, refl)) (λ i. omega (arith, k i))
            (take_at pick p.idle) (λ i. take_at-IsTakenOut (one i) (λ c. Unit {0}) pick p.idle))
    proceeded-Inv sets pick keep (err x) (some c) todo (inl (command, e)) k =
        subst (Proceeds pick keep (err x) (some c)) (sym e) (record {
          conserved = λ i. omega (arith, inv.conserved i, k i);
          tracked = (inr refl, tracked);
          isolated = inv.isolated;
        })
    proceeded-Inv sets pick keep (err x) (some c) todo (inr e) k =
        subst (Proceeds pick keep (err x) (some c)) (sym e)
          (released-Inv keep (err x) c (inl refl) k)

-- ===== src/Db/Sessions/Park/Separation.antt =====
-- What two open sessions share: neither their connection nor, unless their tenants do, their schema.
use frego_finance.Prelude.{
  ℕ, ◌+◌, ◌≤◌, ◌≡◌, ◌≢◌, refl, sym, ap, ◌∙◌, List, [], ◌∷◌, ◌++◌, arith, nat_eq, Text, text_eq,
  codes, All,
}
use mathlib.Core.Path.{subst}
use mathlib.Core.List.{append_cancel_right}
use frego_finance.Context.{Uuid}
use frego_finance.Db.Sessions.{TenantSessionManager}
use frego_finance.Db.Sessions.Laws.{HasSchema}
use frego_finance.Db.Sessions.Park.{Backend, Lease, Move, Park, empty, run}
use frego_finance.Db.Sessions.Park.Counts.{one, total, once_below}
use frego_finance.Db.Sessions.Park.Track.{IsIsolated}
use frego_finance.Db.Sessions.Park.Invariant.{Inv, Sets}
use frego_finance.Db.Sessions.Park.Isolation.{run-Inv}

-- The quoted form of a schema's name tells the name, among the schemas that the registry has. (The
-- quoting of pgx drops NUL bytes, which no text of PostgreSQL holds.)
abbrev pub QuotesApart : TenantSessionManager → Type 0
QuotesApart m =
    (t t' : Uuid) (a b : Text)
    → HasSchema m t a
    → HasSchema m t' b
    → m.pools.quote a ≡ m.pools.quote b
    → a ≡ b

total-append :
    {A : Type 0} (f : A → ℕ) (xs ys : List A) → total f (xs ++ ys) ≡ total f xs + total f ys
total-append f [] ys = omega arith
total-append f (x ∷ xs) ys = omega (arith, total-append f xs ys)

All-after :
    {A : Type 0} (P : A → Type 0) (xs : List A) (y : A) (ys : List A)
    → All P (xs ++ y ∷ ys)
    → P y × All P ys
All-after P [] y ys h = h
All-after P (x ∷ xs) y ys (h, hs) = All-after P xs y ys hs

one-same : (i : ℕ) (c : Backend) → c.id ≡ i → one i c ≡ 1
one-same i c e = ground (arith, e)

once : (i n : ℕ) → once_below i n ≤ 1
once i n = ground arith

module _ (m : TenantSessionManager) (p : Park) (inv : Inv m p) (front middle back : List Lease)
    (l k : Lease) (e : p.lent ≡ front ++ l ∷ (middle ++ k ∷ back)) where
  apart : l.backend.id ≢ k.backend.id
  apart h =
      let i = l.backend.id in
      let f : Lease → ℕ = λ x. one i x.backend in
      absurd (
        omega (
          arith,
          inv.conserved i,
          once i p.made,
          ap (total f) e,
          total-append f front (l ∷ (middle ++ k ∷ back)),
          total-append f middle (k ∷ back),
          one-same i l.backend refl,
          one-same i k.backend (sym h),
        ))

  one_schema :
      QuotesApart m
      → l.backend.search_path ≡ k.backend.search_path
      → (schema : Text) × HasSchema m l.tenant schema × HasSchema m k.tenant schema
  one_schema quotes same =
      let all : All (IsIsolated m) (front ++ l ∷ (middle ++ k ∷ back)) =
        subst (λ (ls : List Lease). All (IsIsolated m) ls) e inv.isolated in
      let ((schema, (has, told), path), others) =
        All-after (IsIsolated m) front l (middle ++ k ∷ back) all in
      let ((schema', (has', told'), path'), _) = All-after (IsIsolated m) middle k back others in
      let equal =
        quotes l.tenant k.tenant schema schema' has has'
          (append_cancel_right _ _ (codes ", public") (sym path ∙ same ∙ path')) in
      (schema, has, subst (λ (x : Text). HasSchema m k.tenant x) (sym equal) has')

-- Any two sessions that are open at a time, at any moment of any interleaving of calls, are on
-- different connections; and if they are on the same search path, the registry has one schema for the
-- tenants of both. A search path command that was executed has set the path, what a caller executes
-- on its own session leaves the path as it is, and different schemas of the registry are quoted
-- differently.
pub run-separates :
    (fresh_path : Text) (effect : (command path : Text) → Text) (m : TenantSessionManager)
    → Sets effect
    → QuotesApart m
    → (cs : List Move) (front middle back : List Lease) (l k : Lease)
    → (run fresh_path effect m empty cs).lent ≡ front ++ l ∷ (middle ++ k ∷ back)
    → (l.backend.id ≢ k.backend.id)
      × (l.backend.search_path ≡ k.backend.search_path
          → (schema : Text) × HasSchema m l.tenant schema × HasSchema m k.tenant schema)
run-separates fresh_path effect m sets quotes cs front middle back l k e =
    let p = run fresh_path effect m empty cs in
    let inv = run-Inv fresh_path effect m sets cs in
    (apart m p inv front middle back l k e, one_schema m p inv front middle back l k e quotes)

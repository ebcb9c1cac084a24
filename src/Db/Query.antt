-- ===== src/Db/Query.antt =====
-- What the service uses of pgx: the error of a query for one row, and the calls on a connection
-- that a pool lends, as a trace.
use frego_finance.Prelude.{
  ℕ, suc, Bool, true, false, List, [], ◌∷◌, nat_eq, Text, text_eq, Result, ok, err,
}

-- The error of QueryRow(…).Scan(…): pgx.ErrNoRows, or another.
pub data QueryError : Type 0 where
  no_rows : QueryError
  query_failed : Text → QueryError

pub data Event : Type 0 where
  acquired released : Event
  executed : Text → Bool → Event

abbrev pub acquires : List Event → ℕ
acquires [] = 0
acquires (acquired ∷ es) = suc (acquires es)
acquires (released ∷ es) = acquires es
acquires (executed sql ok? ∷ es) = acquires es

abbrev pub releases : List Event → ℕ
releases [] = 0
releases (acquired ∷ es) = releases es
releases (released ∷ es) = suc (releases es)
releases (executed sql ok? ∷ es) = releases es

-- The texts that were executed without an error.
abbrev pub applied_texts : List Event → List Text
applied_texts [] = []
applied_texts (acquired ∷ es) = applied_texts es
applied_texts (released ∷ es) = applied_texts es
applied_texts (executed sql true ∷ es) = sql ∷ applied_texts es
applied_texts (executed sql false ∷ es) = applied_texts es

abbrev pub succeeded : {E A : Type 0} → Result E A → Bool
succeeded (ok a) = true
succeeded (err e) = false

-- ===== src/Api/Writer.antt =====
-- What the API uses of net/http's ResponseWriter: the header counts as it stands when the status is
-- written, and only the first status is sent.
use frego_finance.Prelude.{
  ℕ, Option, none, some, List, [], ◌∷◌, ◌++◌, if◌then◌else◌, ◌==◌, nat_eq, Text, text_eq, codes,
}
use frego_finance.Http.{Response, Served, served}

pub record Writer : Type 0 where
  pub headers : List (Text × Text)
  pub sent : Option (ℕ × List (Text × Text))
  pub body : Text

abbrev pub fresh : Writer
fresh = record { headers = []; sent = none; body = [] }

-- w.Header().Set
unfoldable pub set_in : Text → Text → List (Text × Text) → List (Text × Text)
set_in name v [] = (name, v) ∷ []
set_in name v ((k, x) ∷ rest) =
    let later = set_in name v rest in if k == name then (k, v) ∷ rest else (k, x) ∷ later

unfoldable pub set_header : Text → Text → Writer → Writer
unfolding set_in
set_header name v w = record w { headers = set_in name v w.headers }

abbrev pub sent_or :
    ℕ → List (Text × Text) → Option (ℕ × List (Text × Text)) → ℕ × List (Text × Text)
sent_or status headers none = (status, headers)
sent_or status headers (some s) = s

-- w.WriteHeader
unfoldable pub write_header : ℕ → Writer → Writer
write_header status w = record w { sent = some (sent_or status w.headers w.sent) }

-- w.Write
unfoldable pub write : Text → Writer → Writer
unfolding write_header
write s w = record w { sent = some (sent_or 200 w.headers w.sent); body = w.body ++ s }

-- http.Error
unfoldable pub write_error : Text → ℕ → Writer → Writer
unfolding set_header write_header write
write_error message status w = write (message ++ (b'\n' ∷ [])) (
    write_header status (
      set_header (codes "X-Content-Type-Options") (codes "nosniff")
        (set_header (codes "Content-Type") (codes "text/plain; charset=utf-8") w)))

-- What the client gets once the handler has returned.
unfoldable pub finish : Writer → Response
finish w = record {
  status = (sent_or 200 w.headers w.sent).0;
  headers = (sent_or 200 w.headers w.sent).1;
  body = w.body;
}

abbrev pub answer : (Writer → Writer) → Served
answer act = served (finish (act fresh))

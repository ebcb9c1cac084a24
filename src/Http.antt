-- ===== src/Http.antt =====
-- What the service uses of Go's net/http and log/slog: a handler maps a request to the lines that
-- it logs and the response that it writes. A middleware maps a handler to a handler.
use frego_finance.Prelude.{ℕ, List, [], ◌∷◌, ◌++◌, Text, codes, ◌==◌, text_eq, if◌then◌else◌}
use frego_finance.Context.{Context}
pub use frego_finance.Slog.{Level, info, warn, error}

pub record Request : Type 0 where
  pub method : Text
  pub path : Text
  pub headers : List (Text × List Text)
  pub query : List (Text × List Text)
  pub body : Text
  pub context : Context

pub record Response : Type 0 where
  pub status : ℕ
  pub headers : List (Text × Text)
  pub body : Text

pub record Line : Type 0 where
  pub level : Level
  pub message : Text

pub record Served : Type 0 where
  pub lines : List Line
  pub response : Response

abbrev pub Handler : Type 0
Handler = Request → Served

abbrev pub Middleware : Type 0
Middleware = Handler → Handler

-- The values of a header or query parameter, none if it is absent.
unfoldable pub values_of : Text → List (Text × List Text) → List Text
values_of name [] = []
values_of name ((k, vs) ∷ rest) = if k == name then vs else values_of name rest

abbrev pub first : List Text → Text
first [] = []
first (v ∷ vs) = v

-- r.Header.Get
unfoldable pub header_get : Request → Text → Text
unfolding values_of
header_get r name = first (values_of name r.headers)

-- http.Error
abbrev pub http_error : Text → ℕ → Response
http_error message code = record {
  status = code;
  headers =
      (codes "Content-Type", codes "text/plain; charset=utf-8")
      ∷ (codes "X-Content-Type-Options", codes "nosniff")
      ∷ [];
  body = message ++ (b'\n' ∷ []);
}

abbrev pub served : Response → Served
served response = record { lines = []; response = response }

abbrev pub with_line : Level → Text → Served → Served
with_line level message s = record s {
  lines = record { level = level; message = message } ∷ s.lines;
}

abbrev pub with_context : Request → Context → Request
with_context r ctx = record r { context = ctx }

-- ===== src/Tests/Samples.antt =====
-- Inputs for the examples.
use frego_finance.Prelude.{
  ◌≡◌, inl, inr, Bool, true, false, ◌||◌, [], ◌∷◌, arith, Bool-cases, ◌==◌, nat_eq, Text, text_eq,
  codes, ok,
}
use frego_finance.Strings.{Unicode}
use frego_finance.Paths.Laws.{NoSlash}
use frego_finance.Context.{Principal}
use frego_finance.Context.Claims.{Entries, end, entry, text, texts, object}
use frego_finance.Http.{Request, Handler, served}
use frego_finance.Auth.Authenticator.{IdToken, Authenticator}
use frego_finance.Server.TenantMiddleware.{Registry}
use frego_finance.Auth.Middleware.{is_open}
use frego_finance.Prelude.{refl, text_beq}
use frego_finance.Strings.{trim_suffix, has_suffix, starts_with}

abbrev pub ascii : Unicode
ascii = record {
  letter = λ c. false;
  digit = λ c. false;
  lower = λ c. c;
  upper = λ c. c;
  fold = λ c. c;
}

abbrev pub claims : Entries
claims = entry (codes "tenant_id") (text (codes "t1")) (
    entry (codes "realm_access")
      (object
        (entry (codes "roles") (texts (codes "admin" ∷ codes "user" ∷ codes "admin" ∷ [])) end))
      end)

abbrev pub token : IdToken
token = record { audience = codes "finance" ∷ []; subject = codes "s1"; claims = ok claims }

abbrev pub authenticator : Authenticator
authenticator = record {
  verifier = λ raw. ok token;
  audiences = codes "finance" ∷ [];
  tenant_claim = codes "tenant_id";
}

abbrev pub request : Request
request = record {
  method = codes "GET";
  path = codes "/finance/api/v1/invoices";
  headers =
      (codes "Authorization", codes "Bearer abc" ∷ [])
      ∷ (codes "X-Tenant-ID", codes "t2" ∷ [])
      ∷ [];
  query = [];
  body = [];
  context = [];
}

abbrev pub health_request : Request
health_request = record request { path = codes "/finance/api/v1/health" }

-- Every tenant is active, and the text of a UUID is its sixteen bytes.
abbrev pub registry : Registry
registry = record { parse_uuid = λ s. ok s; is_active = λ t. ok true; default_tenant = codes "t0" }

abbrev pub answer_ok : Handler
answer_ok r = served (record { status = 200; headers = []; body = codes "[]" })

abbrev pub principal : Principal
principal = record {
  username = codes "s1";
  subject = codes "s1";
  email = [];
  tenant_id = codes "t1";
  roles = codes "admin" ∷ codes "user" ∷ [];
  scopes = [];
  claims = claims;
}

pub closed : is_open request ≡ false
unfolding is_open text_beq trim_suffix has_suffix starts_with
closed = refl

abbrev has_slash : Text → Bool
has_slash [] = false
has_slash (c ∷ s) = c == b'/' || has_slash s

pub NoSlash-of : (s : Text) → has_slash s ≡ false → NoSlash s
NoSlash-of [] h = tt
NoSlash-of (c ∷ s) h = elim (Bool-cases (c == b'/')) [
  | inl e ↦ absurd (ground arith)
  | inr e ↦ (ground arith, NoSlash-of s (rw e at h))
]

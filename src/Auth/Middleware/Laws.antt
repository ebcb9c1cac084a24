-- ===== src/Auth/Middleware/Laws.antt =====
-- Which requests reach the handlers, and with which principal.
use frego_finance.Prelude.{
  ◌≡◌, refl, sym, ◌⊎◌, inl, inr, true, false, List, [], ◌∷◌, ◌++◌, append_assoc, arith, nat_eq,
  Text, text_beq_iff, text_eq, codes, Result, ok, err,
}
use frego_finance.Strings.Suffixes.{trim_suffix-concat_ne, trim_suffix-concat, has_suffix-append}
use frego_finance.Strings.{Unicode, trim_suffix}
use frego_finance.Context.Claims.{Value, Entries}
use frego_finance.Context.{Principal}
use frego_finance.Common.Principal.{with_principal}
use frego_finance.Http.{Request, Handler, Served, served, http_error, header_get, with_context}
use frego_finance.Auth.Claims.{AuthError}
use frego_finance.Auth.Authenticator.{Authenticator, authenticate}
use frego_finance.Auth.Authenticator.Laws.{IsAccepted, authenticate-eq-ok_iff}
use frego_finance.Auth.Middleware.{bearer_token, is_open, reject, middleware, TokenError}

reject_status :
    (e : AuthError) → ((reject e).response.status ≡ 401) ⊎ ((reject e).response.status ≡ 403)
unfolding reject
reject_status e = ground arith

module _ (u : Unicode) (visit : Entries → List Value) (a : Authenticator) (r : Request) where
  -- The request carries a bearer token that the authenticator accepts for the principal.
  pub record IsAuthenticated (p : Principal) : Type 0 where
    pub raw : Text
    pub carried : bearer_token u (header_get r (codes "Authorization")) ≡ ok raw
    pub accepted : IsAccepted visit a raw p

  -- The handler behind the middleware runs, with the principal in its context.
  abbrev pub RunsFor : Type 0
  RunsFor =
      (p : Principal) × IsAuthenticated p
      × ((next : Handler)
          → middleware u visit a next r ≡ next (with_context r (with_principal r.context p)))

  -- The middleware answers by itself, with 401 or 403, and the handler behind it plays no part.
  abbrev pub IsTurnedAway : Type 0
  IsTurnedAway =
      (s : Served) × ((next : Handler) → middleware u visit a next r ≡ s)
      × ((s.response.status ≡ 401) ⊎ (s.response.status ≡ 403))

  pass_on_cases :
      (raw : Text)
      → is_open r ≡ false
      → bearer_token u (header_get r (codes "Authorization")) ≡ ok raw
      → (res : Result AuthError Principal) → authenticate visit a raw ≡ res
      → RunsFor ⊎ IsTurnedAway
  unfolding middleware
  pass_on_cases raw closed t (ok p) e = inl (
    p,
    record { raw = raw; carried = t; accepted = (authenticate-eq-ok_iff visit a raw p).0 e },
    (λ n. rw (closed, t, e)),
  )
  pass_on_cases raw closed t (err x) e = inr (reject x, (λ n. rw (closed, t, e)), reject_status x)

  with_token_cases :
      is_open r ≡ false
      → (t : Result TokenError Text) → bearer_token u (header_get r (codes "Authorization")) ≡ t
      → RunsFor ⊎ IsTurnedAway
  unfolding middleware
  with_token_cases closed (ok raw) e = pass_on_cases raw closed e (authenticate visit a raw) refl
  with_token_cases closed (err x) e =
      inr (served (http_error (codes "missing bearer token") 401), (λ n. rw (closed, e)), inl refl)

-- A request that is not one of the open ones either carries a token that is accepted, and whatever
-- handler is behind the middleware runs with the token's principal in its context, or is answered by
-- the middleware with 401 or 403 in a way that does not depend on the handler.
pub middleware-mediates :
    (u : Unicode) (visit : Entries → List Value) (a : Authenticator) (r : Request)
    → is_open r ≡ false
    → RunsFor u visit a r ⊎ IsTurnedAway u visit a r
middleware-mediates u visit a r closed = with_token_cases u visit a r closed _ refl

trim_suffix-health :
    (prefix : Text)
    → trim_suffix (prefix ++ codes "/health") (codes "/") ≡ prefix ++ codes "/health"
trim_suffix-health prefix =
    let e : prefix ++ codes "/health" ≡ (prefix ++ codes "/healt") ++ b'h' ∷ [] =
      sym (append_assoc prefix (codes "/healt") (b'h' ∷ [])) in
    rw e (trim_suffix-concat_ne (prefix ++ codes "/healt") b'h' b'/' (omega arith))

trim_suffix-health_slash :
    (prefix : Text)
    → trim_suffix (prefix ++ codes "/health/") (codes "/") ≡ prefix ++ codes "/health"
trim_suffix-health_slash prefix =
    let e : prefix ++ codes "/health/" ≡ (prefix ++ codes "/health") ++ b'/' ∷ [] =
      sym (append_assoc prefix (codes "/health") (b'/' ∷ [])) in
    rw e (trim_suffix-concat (prefix ++ codes "/health") b'/')

is_open-health :
    (r : Request) (prefix : Text)
    → r.method ≡ codes "GET"
    → trim_suffix r.path (codes "/") ≡ prefix ++ codes "/health"
    → is_open r ≡ true
unfolding is_open
is_open-health r prefix get path =
    ground (arith, has_suffix-append prefix (codes "/health"), text_beq_iff r.method (codes "GET"))

trim_suffix-path :
    (path prefix : Text)
    → (path ≡ prefix ++ codes "/health") ⊎ (path ≡ prefix ++ codes "/health/")
    → trim_suffix path (codes "/") ≡ prefix ++ codes "/health"
trim_suffix-path path prefix (inl e) = rw e (trim_suffix-health prefix)
trim_suffix-path path prefix (inr e) = rw e (trim_suffix-health_slash prefix)

-- A GET request for any path that ends in "/health", with or without one more slash, reaches the
-- handler with its context as it came: no token is asked for, also below the API's own paths.
pub middleware-get_health :
    (u : Unicode) (visit : Entries → List Value) (a : Authenticator) (r : Request) (next : Handler)
    (prefix : Text)
    → r.method ≡ codes "GET"
    → (r.path ≡ prefix ++ codes "/health") ⊎ (r.path ≡ prefix ++ codes "/health/")
    → middleware u visit a next r ≡ next r
unfolding middleware
middleware-get_health u visit a r next prefix get path =
    rw (is_open-health r prefix get (trim_suffix-path r.path prefix path))

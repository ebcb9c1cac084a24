-- ===== src/Tests/Auth.antt =====
-- Examples for package internal/auth.
use frego_finance.Prelude.{
  ◌≡◌, refl, ◌≢◌, ◌↔◌, ◌⊎◌, inl, false, [], Mem, Nodup, nat_eq, Text, text_beq, text_eq, codes, ok,
}
use mathlib.Core.List.{reverse_perm, reverse}
use frego_finance.Strings.{trim_suffix, has_suffix, starts_with}
use frego_finance.Context.Claims.{values}
use frego_finance.Auth.Roles.{extract_roles}
use frego_finance.Auth.Roles.Given.{InRealm, InResource}
use frego_finance.Auth.Roles.Laws.{extract_roles-Nodup_mem}
use frego_finance.Auth.Authenticator.{authenticate}
use frego_finance.Auth.Authenticator.Laws.{IsAccepted, authenticate-eq-ok_iff}
use frego_finance.Auth.Authenticator.Order.{viewed, view, holds, authenticate-view}
use frego_finance.Common.Principal.{has_role}
use frego_finance.Context.{Principal}
use frego_finance.Auth.Middleware.{middleware, is_open, bearer_token}
use frego_finance.Auth.Middleware.Laws.{
  RunsFor, IsTurnedAway, middleware-mediates, middleware-get_health,
}
use frego_finance.Auth.Middleware.Bearer.{Carries, bearer_token-eq-ok_iff}
use frego_finance.Tests.Samples.{
  ascii, claims, authenticator, request, health_request, answer_ok, principal,
}

authenticate-eq-ok_iff_example :
    (authenticate values authenticator (codes "abc") ≡ ok principal)
    ↔ IsAccepted values authenticator (codes "abc") principal
authenticate-eq-ok_iff_example = authenticate-eq-ok_iff values authenticator (codes "abc") principal

request_closed : is_open request ≡ false
unfolding is_open text_beq trim_suffix has_suffix starts_with
request_closed = refl

middleware-mediates_example :
    RunsFor ascii values authenticator request ⊎ IsTurnedAway ascii values authenticator request
middleware-mediates_example = middleware-mediates ascii values authenticator request request_closed

middleware-get_health_example :
    middleware ascii values authenticator answer_ok health_request ≡ answer_ok health_request
middleware-get_health_example =
    middleware-get_health ascii values authenticator health_request answer_ok
      (codes "/finance/api/v1") refl (inl refl)

bearer_token-eq-ok_iff_example :
    (bearer_token ascii (codes "bearer  abc") ≡ ok (codes "abc"))
    ↔ Carries ascii (codes "bearer  abc") (codes "abc")
bearer_token-eq-ok_iff_example = bearer_token-eq-ok_iff ascii (codes "bearer  abc") (codes "abc")

extract_roles-Nodup_mem_example :
    Nodup (extract_roles values claims)
    × ((a : Text)
        → Mem a (extract_roles values claims)
          ↔ ((InRealm a claims ⊎ InResource values a claims) × (a ≢ [])))
extract_roles-Nodup_mem_example = extract_roles-Nodup_mem values claims

authenticate-view_example :
    (viewed (authenticate (λ m. reverse (values m)) authenticator (codes "abc"))
      ≡ viewed (authenticate values authenticator (codes "abc")))
    × ((p : Principal) (role : Text) → has_role p role ≡ holds role (view p).roles)
authenticate-view_example =
    authenticate-view (λ m. reverse (values m)) values (λ m. reverse_perm (values m)) authenticator
      (codes "abc")

-- ===== src/Auth/Authenticator/Order.antt =====
-- The order in which Go visits a map decides nothing: principals with the order of roles forgotten.
use frego_finance.Prelude.{
  ◌≡◌, refl, sym, ap, ◌∙◌, inl, inr, Bool-cases, Bool, true, false, List, nat_eq, Text, text_eq,
  contains, contains-Mem, Result, ok, err, wrap_err, ◌>>=◌, if◌then◌else◌,
}
use mathlib.Core.Bool.{Bool-set}
use mathlib.Core.List.{Perm}
use mathlib.Core.List.Perm
use mathlib.Core.Quot
use mathlib.Core.Quot.{Quot}
use frego_finance.Context.{Principal}
use frego_finance.Context.Claims.{Value, Entries}
use frego_finance.Common.Principal.{has_role}
use frego_finance.Auth.Claims.{
  AuthError, verify_failed, audience_mismatch, decode_failed, extract_tenant_claim,
}
use frego_finance.Auth.Roles.Laws.{extract_roles-Perm}
use frego_finance.Auth.Authenticator.{
  IdToken, Authenticator, refuses_audience, principal_of, authenticate,
}

-- Roles whose order is forgotten.
abbrev pub RoleBag : Type 0
RoleBag = Quot (λ (vs ws : List Text). Perm vs ws)

pub contains-Perm :
    (role : Text) (vs ws : List Text) → Perm vs ws → contains vs role ≡ contains ws role
contains-Perm role vs ws p = elim (Bool-cases (contains vs role)) [
  | inl e ↦ e ∙ sym ((contains-Mem ws role).1 ((Perm.mem_iff p).0 ((contains-Mem vs role).0 e)))
  | inr e ↦ elim (Bool-cases (contains ws role)) [
    | inl f ↦
        absurd (cc ((contains-Mem vs role).1 ((Perm.mem_iff p).1 ((contains-Mem ws role).0 f)), e))
    | inr f ↦ e ∙ sym f
  ]
]

abbrev pub holds : Text → RoleBag → Bool
holds role = Quot.lift Bool-set (λ vs. contains vs role) (λ vs ws p. contains-Perm role vs ws p)

-- A principal whose roles have no order.
pub record PrincipalView : Type 0 where
  pub username : Text
  pub subject : Text
  pub email : Text
  pub tenant_id : Text
  pub roles : RoleBag
  pub scopes : List Text
  pub claims : Entries

abbrev pub view : Principal → PrincipalView
view p = record {
  username = p.username;
  subject = p.subject;
  email = p.email;
  tenant_id = p.tenant_id;
  roles = Quot.mk p.roles;
  scopes = p.scopes;
  claims = p.claims;
}

abbrev pub viewed : Result AuthError Principal → Result AuthError PrincipalView
viewed (ok p) = ok (view p)
viewed (err e) = err e

viewed-bind :
    {A : Type 0} (m : Result AuthError A) (f g : A → Result AuthError Principal)
    → ((x : A) → viewed (f x) ≡ viewed (g x))
    → viewed (m >>= f) ≡ viewed (m >>= g)
viewed-bind (ok x) f g h = h x
viewed-bind (err e) f g h = refl

viewed-if :
    (b : Bool) (refused first second : Result AuthError Principal)
    → viewed first ≡ viewed second
    → viewed (if b then refused else first) ≡ viewed (if b then refused else second)
viewed-if true refused first second h = refl
viewed-if false refused first second h = h

module _ (visit visit' : Entries → List Value)
    (same : (m : Entries) → Perm (visit m) (visit' m)) where
  view-principal_of :
      (subject : Text) (claims : Entries) (tenant : Text)
      → view (principal_of visit subject claims tenant)
        ≡ view (principal_of visit' subject claims tenant)
  unfolding principal_of
  view-principal_of subject claims tenant =
      ap (λ (r : RoleBag). record (view (principal_of visit subject claims tenant)) { roles = r })
        (Quot.sound (extract_roles-Perm visit visit' same claims))

  module _ (a : Authenticator) where
    -- Authenticate behind the verifier, the claims and the tenant.
    abbrev named : (Entries → List Value) → IdToken → Entries → Text → Result AuthError Principal
    named order token claims tenant = ok (principal_of order token.subject claims tenant)

    abbrev decoded : (Entries → List Value) → IdToken → Entries → Result AuthError Principal
    decoded order token claims =
        extract_tenant_claim claims a.tenant_claim >>= named order token claims

    abbrev verified : (Entries → List Value) → IdToken → Result AuthError Principal
    verified order token =
        if refuses_audience a.audiences token.audience
        then err (audience_mismatch token.audience)
        else (wrap_err decode_failed token.claims >>= decoded order token)

    viewed-decoded :
        (token : IdToken) (claims : Entries)
        → viewed (decoded visit token claims) ≡ viewed (decoded visit' token claims)
    viewed-decoded token claims =
        viewed-bind (extract_tenant_claim claims a.tenant_claim) (named visit token claims)
          (named visit' token claims)
          (λ tenant.
            ap (λ (v : PrincipalView). ok v) (view-principal_of token.subject claims tenant))

    viewed-verified :
        (token : IdToken) → viewed (verified visit token) ≡ viewed (verified visit' token)
    viewed-verified token = viewed-if (refuses_audience a.audiences token.audience) _ _ _ (
        viewed-bind (wrap_err decode_failed token.claims) (decoded visit token)
          (decoded visit' token) (viewed-decoded token))

    viewed-authenticate :
        (raw : Text) → viewed (authenticate visit a raw) ≡ viewed (authenticate visit' a raw)
    unfolding authenticate
    viewed-authenticate raw =
        viewed-bind (wrap_err verify_failed (a.verifier raw)) (verified visit) (verified visit')
          viewed-verified

-- Whatever order Go takes when it goes through the maps of a token's claims, Authenticate gives the
-- same error or the same principal but for the order of its roles; and whether a principal has a role
-- is told by its roles without their order. So no decision depends on the order, where any two orders
-- of visiting are rearrangements of one another.
pub authenticate-view :
    (visit visit' : Entries → List Value)
    → ((m : Entries) → Perm (visit m) (visit' m))
    → (a : Authenticator) (raw : Text)
    → (viewed (authenticate visit a raw) ≡ viewed (authenticate visit' a raw))
      × ((p : Principal) (role : Text) → has_role p role ≡ holds role (view p).roles)
unfolding has_role
authenticate-view visit visit' same a raw =
    (viewed-authenticate visit visit' same a raw, λ p role. refl)

-- ===== src/Auth/Authenticator/Laws.antt =====
-- What the authenticator accepts, and how it fails.
use frego_finance.Prelude.{
  ◌≡◌, refl, ◌≢◌, ◌↔◌, ◌⊎◌, inl, inr, true, false, some, List, [], ◌∷◌, Mem, arith, Bool-cases,
  nat_eq, Text, text_beq_iff, text_eq, contains, contains-Mem, Result, ok, err, ◌>>=◌, wrap_err,
  >>=-eq-ok, wrap_err-eq-ok, ok-injective,
}
use mathlib.Core.Path.{subst}
use mathlib.Core.List.{mem-cons_of_mem, mem-cons_self}
use frego_finance.Context.{Principal}
use frego_finance.Context.Claims.{Value, Entries}
use frego_finance.Auth.Claims.{
  AuthError, verify_failed, audience_mismatch, decode_failed, claim_at, extract_tenant_claim,
}
use frego_finance.Auth.Authenticator.{
  IdToken, Authenticator, aud_allowed, refuses_audience, principal_of, authenticate,
}

-- The two lists have a member in common.
abbrev pub Shares : List Text → List Text → Type 0
Shares xs ys = (a : Text) × Mem a xs × Mem a ys

aud_allowed_sound :
    (token_aud allowed : List Text)
    → aud_allowed token_aud allowed ≡ true
    → Shares token_aud allowed
unfolding aud_allowed
aud_allowed_sound token_aud [] h = absurd (ground arith)
aud_allowed_sound token_aud (x ∷ xs) h = elim (Bool-cases (contains token_aud x)) [
  | inl e ↦ (x, (contains-Mem token_aud x).0 e, mem-cons_self)
  | inr e ↦
      let (a, m, k) = aud_allowed_sound token_aud xs (rw e at h) in (a, m, mem-cons_of_mem x k)
]

contains-aud_allowed :
    (token_aud allowed : List Text) (a : Text)
    → contains token_aud a ≡ true
    → contains allowed a ≡ true
    → aud_allowed token_aud allowed ≡ true
unfolding aud_allowed contains
contains-aud_allowed token_aud [] a h k = absurd (ground arith)
contains-aud_allowed token_aud (x ∷ xs) a h k =
    ground (arith, contains-aud_allowed token_aud xs a h, text_beq_iff x a)

aud_allowed_iff :
    (token_aud allowed : List Text)
    → (aud_allowed token_aud allowed ≡ true) ↔ Shares token_aud allowed
aud_allowed_iff token_aud allowed = (
  aud_allowed_sound token_aud allowed,
  λ (a, m, k).
      contains-aud_allowed token_aud allowed a ((contains-Mem _ a).1 m) ((contains-Mem _ a).1 k),
)

-- The token is meant for this service: no audience is configured, or one of them is the token's.
abbrev pub IsIntended : Authenticator → IdToken → Type 0
IsIntended a token = (a.audiences ≡ []) ⊎ Shares token.audience a.audiences

refuses_audience_sound :
    (auds token_aud : List Text)
    → refuses_audience auds token_aud ≡ false
    → (auds ≡ []) ⊎ Shares token_aud auds
refuses_audience_sound [] token_aud h = inl refl
refuses_audience_sound (x ∷ xs) token_aud h =
    inr (aud_allowed_sound token_aud (x ∷ xs) (ground arith))

refuses_audience_complete :
    (auds token_aud : List Text)
    → (auds ≡ []) ⊎ Shares token_aud auds
    → refuses_audience auds token_aud ≡ false
refuses_audience_complete [] token_aud h = refl
refuses_audience_complete (x ∷ xs) token_aud (inl e) = cc
refuses_audience_complete (x ∷ xs) token_aud (inr s) =
    ground (arith, (aud_allowed_iff token_aud (x ∷ xs)).1 s)

extract_tenant_claim_sound :
    (claims : Entries) (claim t : Text)
    → extract_tenant_claim claims claim ≡ ok t
    → (claim_at claims claim ≡ some t) × (t ≢ [])
unfolding extract_tenant_claim claim_at
extract_tenant_claim_sound claims claim t h = ground arith

extract_tenant_claim_complete :
    (claims : Entries) (claim t : Text)
    → claim_at claims claim ≡ some t
    → t ≢ []
    → extract_tenant_claim claims claim ≡ ok t
unfolding extract_tenant_claim claim_at
extract_tenant_claim_complete claims claim t h k = ground arith

module _ (visit : Entries → List Value) (a : Authenticator) (raw : Text) where
  -- What has to hold for the raw token to be turned into the principal.
  pub record IsAccepted (p : Principal) : Type 0 where
    pub token : IdToken
    pub claims : Entries
    pub verified : a.verifier raw ≡ ok token
    pub intended : IsIntended a token
    pub decoded : token.claims ≡ ok claims
    pub tenant : claim_at claims a.tenant_claim ≡ some p.tenant_id
    pub has_tenant : p.tenant_id ≢ []
    pub built : p ≡ principal_of visit token.subject claims p.tenant_id

module _ (visit : Entries → List Value) (a : Authenticator) (raw : Text) where
  -- The last steps of Authenticate, on the claims of a token that was accepted.
  abbrev finish : Text → Entries → Result AuthError Principal
  finish subject claims = do
    tenant ← extract_tenant_claim claims a.tenant_claim
    ok (principal_of visit subject claims tenant)

  abbrev IsBuilt : Text → Entries → Principal → Type 0
  IsBuilt subject claims p =
      (claim_at claims a.tenant_claim ≡ some p.tenant_id)
      × (p.tenant_id ≢ [])
      × (p ≡ principal_of visit subject claims p.tenant_id)

  finish_sound :
      (subject : Text) (claims : Entries) (p : Principal)
      → finish subject claims ≡ ok p
      → IsBuilt subject claims p
  unfolding principal_of
  finish_sound subject claims p h =
      let (tenant, e, built) = >>=-eq-ok (extract_tenant_claim claims a.tenant_claim) _ h in
      let (found, named) = extract_tenant_claim_sound claims a.tenant_claim tenant e in
      subst (IsBuilt subject claims) (ok-injective built) (found, named, refl)

  authenticate_sound : (p : Principal) → authenticate visit a raw ≡ ok p → IsAccepted visit a raw p
  unfolding authenticate
  authenticate_sound p h =
      let (token, v, h') = >>=-eq-ok (wrap_err verify_failed (a.verifier raw)) _ h in
      elim (Bool-cases (refuses_audience a.audiences token.audience)) [
        | inl e ↦ absurd (ground arith)
        | inr e ↦
            let h2 : (wrap_err decode_failed token.claims >>= finish token.subject) ≡ ok p =
              rw e at h' in
            let (claims, decoded, h3) = >>=-eq-ok (wrap_err decode_failed token.claims) _ h2 in
            let (found, named, built) = finish_sound token.subject claims p h3 in
            record {
              token = token;
              claims = claims;
              verified = wrap_err-eq-ok verify_failed (a.verifier raw) v;
              intended = refuses_audience_sound a.audiences token.audience e;
              decoded = wrap_err-eq-ok decode_failed token.claims decoded;
              tenant = found;
              has_tenant = named;
              built = built;
            }
      ]

  authenticate_complete :
      (p : Principal) → IsAccepted visit a raw p → authenticate visit a raw ≡ ok p
  unfolding authenticate
  authenticate_complete p c =
      simp
        (
          c.verified,
          refuses_audience_complete a.audiences c.token.audience c.intended,
          c.decoded,
          extract_tenant_claim_complete c.claims a.tenant_claim p.tenant_id c.tenant c.has_tenant,
        )
        (cc c.built)

-- A raw token is turned into a principal exactly when the library verifies it, no audience is
-- configured or one of the configured ones is among the token's, its claims decode, and the claim
-- that names the tenant reads as a text that is not empty; that text is the principal's tenant.
pub authenticate-eq-ok_iff :
    (visit : Entries → List Value) (a : Authenticator) (raw : Text) (p : Principal)
    → (authenticate visit a raw ≡ ok p) ↔ IsAccepted visit a raw p
authenticate-eq-ok_iff visit a raw p =
    (authenticate_sound visit a raw p, authenticate_complete visit a raw p)

-- A verified token that shares no audience with a service that has audiences configured is
-- refused for its audience, whatever its claims are.
pub authenticate-audience_mismatch :
    (visit : Entries → List Value) (a : Authenticator) (raw : Text) (token : IdToken)
    → a.verifier raw ≡ ok token
    → a.audiences ≢ []
    → ¬ Shares token.audience a.audiences
    → authenticate visit a raw ≡ err (audience_mismatch token.audience)
unfolding authenticate
authenticate-audience_mismatch visit a raw token v some_aud apart =
    elim (Bool-cases (refuses_audience a.audiences token.audience)) [
      | inl e ↦ rw (v, e)
      | inr e ↦ elim (refuses_audience_sound a.audiences token.audience e) [
        | inl none_set ↦ absurd (some_aud none_set)
        | inr shared ↦ absurd (apart shared)
      ]
    ]

-- ===== src/Auth/Audiences.antt =====
-- The audiences that the authenticator keeps.
use frego_finance.Prelude.{
  ◌≡◌, refl, ◌≢◌, ◌↔◌, inl, inr, List, [], ◌∷◌, arith, Bool-cases, ◌==◌, nat_eq, Text, text_beq_iff,
  text_eq, All,
}
use mathlib.Core.Path.{subst}
use frego_finance.Strings.{trim_space}
use frego_finance.Strings.Trimming.{trim_space_idem}
use frego_finance.Auth.Authenticator.{normalize_audiences}

-- An audience that is kept as it is.
abbrev pub IsNormal : Text → Type 0
IsNormal aud = (aud ≢ []) × (trim_space aud ≡ aud)

normalize_audiences-IsNormal : (auds : List Text) → All IsNormal (normalize_audiences auds)
unfolding normalize_audiences
normalize_audiences-IsNormal [] = tt
normalize_audiences-IsNormal (aud ∷ auds) = elim (Bool-cases (trim_space aud == [])) [
  | inl e ↦ rw e (normalize_audiences-IsNormal auds)
  | inr e ↦ rw e (
    (ground (arith, text_beq_iff (trim_space aud) []), trim_space_idem aud),
    normalize_audiences-IsNormal auds,
  )
]

normalize_audiences-fixed : (auds : List Text) → All IsNormal auds → normalize_audiences auds ≡ auds
unfolding normalize_audiences
normalize_audiences-fixed [] _ = refl
normalize_audiences-fixed (aud ∷ auds) ((h, k), rest) =
    rw (k, normalize_audiences-fixed auds rest) (ground (arith, text_beq_iff aud []))

-- The audiences that are kept are trimmed and not empty, and a list is kept as it is exactly if all
-- of its audiences are trimmed and not empty.
pub normalize_audiences-IsNormal_iff :
    (auds : List Text)
    → All IsNormal (normalize_audiences auds)
      × ((normalize_audiences auds ≡ auds) ↔ All IsNormal auds)
normalize_audiences-IsNormal_iff auds = (
  normalize_audiences-IsNormal auds,
  (λ e. subst (All IsNormal) e (normalize_audiences-IsNormal auds), normalize_audiences-fixed auds),
)

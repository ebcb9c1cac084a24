-- ===== src/Auth/Middleware/Bearer.antt =====
-- What bearerToken accepts.
use frego_finance.Prelude.{
  ℕ, ◌≡◌, ◌≢◌, ◌↔◌, inl, inr, true, [], ◌∷◌, ◌++◌, arith, nat_eq, Text, text_beq_iff, text_eq,
  codes, ok,
}
use frego_finance.Strings.{Unicode, equal_fold, trim_space}
use frego_finance.Strings.Splitting.{Lacks, split_n2-append, split_n2_cases}
use frego_finance.Auth.Middleware.{bearer_token}

-- The header is a scheme, one space, and the token with white space around it.
abbrev pub Carries : Unicode → Text → Text → Type 0
Carries u header token =
    (scheme : Text) × (rest : Text) × (header ≡ scheme ++ (b' ' ∷ rest))
    × Lacks b' ' scheme
    × (equal_fold u scheme (codes "Bearer") ≡ true)
    × (trim_space rest ≡ token)
    × (token ≢ [])

append-ne-nil : (s t : Text) (c : ℕ) → s ++ (c ∷ t) ≢ []
append-ne-nil [] t c h = cc
append-ne-nil (d ∷ s) t c h = cc

bearer_token_complete :
    (u : Unicode) (header token : Text) → Carries u header token → bearer_token u header ≡ ok token
unfolding bearer_token
bearer_token_complete u header token (scheme, rest, h, lacks, bearer, trimmed, some_token) =
    ground (
      arith,
      append-ne-nil scheme rest b' ',
      split_n2-append scheme rest b' ' lacks,
      text_beq_iff header [],
      text_beq_iff (trim_space rest) [],
    )

bearer_token_sound :
    (u : Unicode) (header token : Text) → bearer_token u header ≡ ok token → Carries u header token
unfolding bearer_token
bearer_token_sound u header token h = elim (split_n2_cases header b' ') [
  | inl e ↦ absurd (ground arith)
  | inr (a, b, e, lacks, parts) ↦
      (a, b, e, lacks, ground arith, ground arith, ground (arith, text_beq_iff (trim_space b) []))
]

-- The header yields the token exactly when it is a scheme that equals "Bearer" but for the case,
-- then one space, and then the token with any white space around it, the token not being empty.
pub bearer_token-eq-ok_iff :
    (u : Unicode) (header token : Text)
    → (bearer_token u header ≡ ok token) ↔ Carries u header token
bearer_token-eq-ok_iff u header token =
    (bearer_token_sound u header token, bearer_token_complete u header token)

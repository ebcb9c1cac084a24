-- ===== src/Strings/Splitting.antt =====
-- Lemmas on strings.SplitN with the limit 2.
use frego_finance.Prelude.{
  ℕ, ◌≡◌, refl, ◌≢◌, ◌⊎◌, inl, inr, [], ◌∷◌, ◌++◌, arith, Bool-cases, ◌==◌, nat_eq, Text, text_eq,
  All,
}
use frego_finance.Strings.Defs.{split_n2, push_first}

-- The code point does not occur in the text.
abbrev pub Lacks : ℕ → Text → Type 0
Lacks d = All (λ c. c ≢ d)

pub split_n2-append :
    (s t : Text) (sep : ℕ) → Lacks sep s → split_n2 (s ++ (sep ∷ t)) sep ≡ s ∷ t ∷ []
unfolding split_n2 push_first
split_n2-append [] t sep h = ground arith
split_n2-append (c ∷ s) t sep (hc, hs) = ground (arith, split_n2-append s t sep hs)

-- A text with no separator is one part; any other is cut at its first separator.
pub split_n2_cases :
    (s : Text) (sep : ℕ)
    → (split_n2 s sep ≡ s ∷ [])
      ⊎ ((a : Text) × (b : Text) × (s ≡ a ++ (sep ∷ b))
          × Lacks sep a
          × (split_n2 s sep ≡ a ∷ b ∷ []))
unfolding split_n2 push_first
split_n2_cases [] sep = inl refl
split_n2_cases (c ∷ s) sep = elim (Bool-cases (c == sep)) [
  | inl e ↦ inr ([], s, ground arith, tt, rw e)
  | inr e ↦ elim (split_n2_cases s sep) [
    | inl h ↦ inl (rw (e, h))
    | inr (a, b, h, k, l) ↦ inr (c ∷ a, b, rw h, (ground arith, k), rw (e, l))
  ]
]

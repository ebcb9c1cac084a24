-- ===== src/Paths/Laws.antt =====
-- Lemmas on path.Clean, path.Join and filepath.Base.
use frego_finance.Prelude.{
  ℕ, Bool, false, List, [], ◌∷◌, ◌++◌, reverse, ◌≡◌, ◌≢◌, ◌⊎◌, refl, sym, ap, append_assoc,
  append-nil, Text, All, All-append, arith, ◌==◌, nat_eq, text_eq, text_beq_iff, Bool-cases, inl,
  inr,
}
use mathlib.Core.List.{reverse-cons}
use frego_finance.Strings.{push_first, starts_with, trim_right}
use frego_finance.Paths.{
  slash, dot, dot_dot, split_slash, join_slash, last_part, or_slash, base, clean_step, clean_parts,
  or_dot, clean, not_empty, clean_joined, path_join,
}

-- No slash in the text.
abbrev pub NoSlash : Text → Type 0
NoSlash = All (λ c. c ≢ b'/')

-- An element that path.Clean keeps as it is.
abbrev pub IsPlain : Text → Type 0
IsPlain p = NoSlash p × (p ≢ []) × (p ≢ dot) × (p ≢ dot_dot)

pub split_slash-NoSlash : (p : Text) → NoSlash p → split_slash p ≡ p ∷ []
unfolding split_slash push_first
split_slash-NoSlash [] _ = refl
split_slash-NoSlash (c ∷ p) (hc, hp) = ground (arith, split_slash-NoSlash p hp)

split_slash-append : (p s : Text) → NoSlash p → split_slash (p ++ (b'/' ∷ s)) ≡ p ∷ split_slash s
unfolding split_slash push_first
split_slash-append [] s _ = refl
split_slash-append (c ∷ p) s (hc, hp) = ground (arith, split_slash-append p s hp)

-- Splitting undoes joining where no element holds a slash.
pub split_slash-join_slash :
    (p : Text) (ps : List Text) → All NoSlash (p ∷ ps) → split_slash (join_slash (p ∷ ps)) ≡ p ∷ ps
unfolding join_slash
split_slash-join_slash p [] (hp, _) = split_slash-NoSlash p hp
split_slash-join_slash p (q ∷ ps) (hp, hps) =
    rw (split_slash-append p (join_slash (q ∷ ps)) hp, split_slash-join_slash q ps hps)

clean_step-IsPlain :
    (rooted : Bool) (stack : List Text) (p : Text)
    → IsPlain p
    → clean_step rooted stack p ≡ p ∷ stack
unfolding clean_step
clean_step-IsPlain rooted stack p (_, h, k, l) =
    ground (arith, text_beq_iff p [], text_beq_iff p dot, text_beq_iff p dot_dot)

clean_parts-IsPlain :
    (rooted : Bool) (stack ps : List Text)
    → All IsPlain ps
    → clean_parts rooted stack ps ≡ reverse stack ++ ps
unfolding clean_parts
clean_parts-IsPlain rooted stack [] _ = sym (append-nil (reverse stack))
clean_parts-IsPlain rooted stack (p ∷ ps) (hp, hps) =
    rw
      (
        clean_step-IsPlain rooted stack p hp,
        clean_parts-IsPlain rooted (p ∷ stack) ps hps,
        reverse-cons,
        append_assoc,
      )
      refl

pub All-NoSlash : (ps : List Text) → All IsPlain ps → All NoSlash ps
All-NoSlash [] _ = tt
All-NoSlash (p ∷ ps) (hp, hps) = (hp.0, All-NoSlash ps hps)

not_empty-IsPlain : (ps : List Text) → All IsPlain ps → not_empty ps ≡ ps
unfolding not_empty
not_empty-IsPlain [] _ = refl
not_empty-IsPlain ([] ∷ ps) (h, _) = absurd (h.1 refl)
not_empty-IsPlain ((c ∷ p) ∷ ps) (_, h) = ap (λ l. (c ∷ p) ∷ l) (not_empty-IsPlain ps h)

starts_with-join_slash :
    (p : Text) (ps : List Text) → IsPlain p → starts_with (join_slash (p ∷ ps)) slash ≡ false
unfolding starts_with join_slash
starts_with-join_slash [] ps h = absurd (h.1 refl)
starts_with-join_slash (c ∷ p) [] ((h, _), _, _, _) = ground arith
starts_with-join_slash (c ∷ p) (q ∷ ps) ((h, _), _, _, _) = ground arith

or_dot-join_slash :
    (p : Text) (ps : List Text) → IsPlain p → or_dot (join_slash (p ∷ ps)) ≡ join_slash (p ∷ ps)
unfolding or_dot join_slash
or_dot-join_slash [] ps h = absurd (h.1 refl)
or_dot-join_slash (c ∷ p) [] h = refl
or_dot-join_slash (c ∷ p) (q ∷ ps) h = refl

-- path.Clean leaves a path alone whose elements are all plain.
clean-join_slash :
    (p : Text) (ps : List Text)
    → All IsPlain (p ∷ ps)
    → clean (join_slash (p ∷ ps)) ≡ join_slash (p ∷ ps)
unfolding clean
clean-join_slash p ps h =
    rw
      (
        starts_with-join_slash p ps h.0,
        split_slash-join_slash p ps (All-NoSlash (p ∷ ps) h),
        clean_parts-IsPlain false [] (p ∷ ps) h,
      )
      (or_dot-join_slash p ps h.0)

-- path.Join of plain elements puts slashes between them and does nothing else.
pub path_join-IsPlain :
    (p : Text) (ps : List Text) → All IsPlain (p ∷ ps) → path_join (p ∷ ps) ≡ join_slash (p ∷ ps)
unfolding path_join clean_joined
path_join-IsPlain p ps h = rw (not_empty-IsPlain (p ∷ ps) h) (clean-join_slash p ps h)

NoSlash-push_first :
    (c : ℕ) (ps : List Text) → c ≢ b'/' → All NoSlash ps → All NoSlash (push_first c ps)
unfolding push_first
NoSlash-push_first c [] h _ = tt
NoSlash-push_first c (p ∷ ps) h (hp, hps) = ((h, hp), hps)

split_slash-All : (s : Text) → All NoSlash (split_slash s)
unfolding split_slash
split_slash-All [] = (tt, tt)
split_slash-All (c ∷ s) = elim (Bool-cases (c == b'/')) [
  | inl e ↦ rw e (tt, split_slash-All s)
  | inr e ↦ rw e (NoSlash-push_first c (split_slash s) (ground arith) (split_slash-All s))
]

last_part-All : (ps : List Text) → All NoSlash ps → NoSlash (last_part ps)
unfolding last_part
last_part-All [] _ = tt
last_part-All (p ∷ []) (h, _) = h
last_part-All (p ∷ q ∷ ps) (_, h) = last_part-All (q ∷ ps) h

or_slash_cases : (s : Text) → (or_slash s ≡ slash) ⊎ (or_slash s ≡ s)
unfolding or_slash
or_slash_cases [] = inl refl
or_slash_cases (c ∷ s) = inr refl

-- filepath.Base is "/" or holds no slash.
pub base_cases : (s : Text) → (base s ≡ slash) ⊎ NoSlash (base s)
unfolding base
base_cases [] = inr (omega arith)
base_cases (c ∷ s) =
    let parts = split_slash (trim_right (λ d. d == b'/') (c ∷ s)) in
    elim (or_slash_cases (last_part parts)) [
      | inl e ↦ inl e
      | inr e ↦
          inr (rw e (last_part-All parts (split_slash-All (trim_right (λ d. d == b'/') (c ∷ s)))))
    ]

join_slash-regroup :
    (q : Text) (qs ps : List Text) (p : Text)
    → join_slash (join_slash (q ∷ qs) ∷ p ∷ ps) ≡ join_slash ((q ∷ qs) ++ p ∷ ps)
unfolding join_slash
join_slash-regroup q [] ps p = refl
join_slash-regroup q (r ∷ qs) ps p = rw (append_assoc, ← join_slash-regroup r qs ps p) refl

pub join_slash-ne-nil : (q : Text) (qs : List Text) → q ≢ [] → join_slash (q ∷ qs) ≢ []
unfolding join_slash
join_slash-ne-nil [] qs h = absurd (h refl)
join_slash-ne-nil (c ∷ q) [] h = cc
join_slash-ne-nil (c ∷ q) (r ∷ qs) h = cc

not_empty-cons : (p : Text) (ps : List Text) → p ≢ [] → not_empty (p ∷ ps) ≡ p ∷ not_empty ps
unfolding not_empty
not_empty-cons [] ps h = absurd (h refl)
not_empty-cons (c ∷ p) ps h = refl

-- A first element that is itself a path of plain elements is joined like these elements.
pub path_join-prefix :
    (q : Text) (qs : List Text) (p : Text) (ps : List Text)
    → All IsPlain (q ∷ qs)
    → All IsPlain (p ∷ ps)
    → path_join (join_slash (q ∷ qs) ∷ p ∷ ps) ≡ join_slash ((q ∷ qs) ++ p ∷ ps)
unfolding path_join clean_joined
path_join-prefix q qs p ps h k =
    rw
      (
        not_empty-cons (join_slash (q ∷ qs)) (p ∷ ps) (join_slash-ne-nil q qs h.0.1),
        not_empty-IsPlain (p ∷ ps) k,
        join_slash-regroup q qs ps p,
      )
      (clean-join_slash q (qs ++ p ∷ ps) (All-append IsPlain (q ∷ qs) (p ∷ ps) h k))

pub join_slash-nil : join_slash [] ≡ []
unfolding join_slash
join_slash-nil = refl

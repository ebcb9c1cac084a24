-- ===== src/Storage/Slug/Words.antt =====
-- The loop of slugifyName against a reference: the words of the input, joined by single dashes.
use frego_finance.Prelude.{
  ℕ, ◌≡◌, refl, ap, ◌∙◌, ◌≢◌, inl, inr, Bool, true, false, List, [], ◌∷◌, ◌++◌, append_assoc,
  append-nil, arith, if◌then◌else◌, Bool-cases, nat_eq, Text, text_beq, text_eq, All, All-append,
}
use frego_finance.Strings.{
  Unicode, is_letter, is_digit, to_lower, trim, trim_func, trim_left, trim_right,
}
use frego_finance.Strings.Trimming.{trim_func_of_Ends}
use frego_finance.Storage.Slug.Joining.{
  join_dash, glue, glue-append, glue-close, join_dash-concat, glue-nil, IsWord, is_dash,
  join_dash-ne-nil, Starts-join_dash, Ends-join_dash, trim_dash, All-concat,
}
use frego_finance.Storage.Slug.{
  Builder, is_separator, is_kept, write_dash, slug_step, slug_loop, slug_of,
}

-- A word that is complete is added if it is not empty.
abbrev pub close_word : Text → List Text → List Text
close_word [] ws = ws
close_word (c ∷ w) ws = (c ∷ w) ∷ ws

-- The words of a text behind the one begun: letters and digits make words, separators end them,
-- and everything else is skipped.
pub words_from : Unicode → Text → Text → List Text
words_from u word [] = close_word word []
words_from u word (c ∷ s) =
    let longer = words_from u (word ++ c ∷ []) s in
    let next = close_word word (words_from u [] s) in
    let skipped = words_from u word s in
    if is_kept u c then longer else if is_separator c then next else skipped

-- Was the last thing written a dash?
abbrev is_between : List Text → Text → Bool
is_between ws (c ∷ w) = false
is_between [] [] = false
is_between (v ∷ ws) [] = true

abbrev state : List Text → Text → Builder
state ws w = record { out = glue ws w; last_dash = is_between ws w }

close_word-append : (w : Text) (ws : List Text) → close_word w [] ++ ws ≡ close_word w ws
close_word-append [] ws = refl
close_word-append (c ∷ w) ws = refl

glue-ne-nil : (ws : List Text) (c : ℕ) (w : Text) → text_beq (glue ws (c ∷ w)) [] ≡ false
unfolding glue text_beq
glue-ne-nil [] c w = refl
glue-ne-nil ([] ∷ ws) c w = refl
glue-ne-nil ((d ∷ v) ∷ ws) c w = refl

is_between-concat : (ws : List Text) (w : Text) → is_between (ws ++ w ∷ []) [] ≡ true
is_between-concat [] w = refl
is_between-concat (v ∷ ws) w = refl

write_dash-begun :
    (ws : List Text) (c : ℕ) (w : Text)
    → write_dash (state ws (c ∷ w)) ≡ state (ws ++ (c ∷ w) ∷ []) []
unfolding write_dash
write_dash-begun ws c w =
    rw
      (
        glue-ne-nil ws c w,
        glue-append ws (c ∷ w),
        glue-close ws (c ∷ w),
        is_between-concat ws (c ∷ w),
      )
      refl

write_dash-state :
    (ws : List Text) (w : Text) → write_dash (state ws w) ≡ state (ws ++ close_word w []) []
unfolding write_dash text_beq glue
write_dash-state [] [] = refl
write_dash-state (v ∷ ws) [] = rw append-nil refl
write_dash-state ws (c ∷ w) = write_dash-begun ws c w

is_between-nil : (ws : List Text) (w : Text) (c : ℕ) → is_between ws (w ++ c ∷ []) ≡ false
is_between-nil ws [] c = refl
is_between-nil ws (d ∷ w) c = refl

trim-glue :
    (ws : List Text) (w : Text)
    → All IsWord ws
    → All (λ c. c ≢ b'-') w
    → trim (glue ws w) b'-' ≡ join_dash (ws ++ close_word w [])
unfolding glue join_dash trim trim_func trim_left trim_right
trim-glue [] [] _ _ = refl
trim-glue (v ∷ ws) [] h _ =
    rw (glue-nil v ws, append-nil ws)
      (trim_dash (join_dash (v ∷ ws)) (join_dash-ne-nil v ws h.0) (Starts-join_dash (v ∷ ws) h)
        (Ends-join_dash (v ∷ ws) h))
trim-glue ws (c ∷ w) h k =
    let all = All-concat ws (c ∷ w) h (k, (cc)) in
    rw (← join_dash-concat ws (c ∷ w)) (
      trim_func_of_Ends is_dash _ (Starts-join_dash (ws ++ (c ∷ w) ∷ []) all)
        (Ends-join_dash (ws ++ (c ∷ w) ∷ []) all))

close_regroup :
    (ws : List Text) (w : Text) (vs : List Text)
    → (ws ++ close_word w []) ++ vs ≡ ws ++ close_word w vs
close_regroup ws w vs = rw (append_assoc, close_word-append) refl

module _ (u : Unicode) where
  kept-ne-dash : (c : ℕ) → is_kept u c ≡ true → c ≢ b'-'
  unfolding is_letter is_digit
  kept-ne-dash c h = ground arith

  slug_step-kept :
      (ws : List Text) (w : Text) (c : ℕ)
      → is_kept u c ≡ true
      → slug_step u (state ws w) c ≡ state ws (w ++ c ∷ [])
  unfolding slug_step
  slug_step-kept ws w c h = rw (h, glue-append ws w (c ∷ []), is_between-nil ws w c) refl

  slug_step-separator :
      (ws : List Text) (w : Text) (c : ℕ)
      → is_kept u c ≡ false
      → is_separator c ≡ true
      → slug_step u (state ws w) c ≡ state (ws ++ close_word w []) []
  unfolding slug_step
  slug_step-separator ws w c h k = rw (h, k) (write_dash-state ws w)

  slug_step-skipped :
      (ws : List Text) (w : Text) (c : ℕ)
      → is_kept u c ≡ false
      → is_separator c ≡ false
      → slug_step u (state ws w) c ≡ state ws w
  unfolding slug_step
  slug_step-skipped ws w c h k = rw (h, k) refl

  All-close_word :
      (ws : List Text) (w : Text)
      → All IsWord ws
      → All (λ c. c ≢ b'-') w
      → All IsWord (ws ++ close_word w [])
  All-close_word ws [] h _ = rw append-nil h
  All-close_word ws (c ∷ w) h k = All-concat ws (c ∷ w) h (k, (cc))

  trim-slug_loop :
      (ws : List Text) (w s : Text)
      → All IsWord ws
      → All (λ c. c ≢ b'-') w
      → trim (slug_loop u (state ws w) s).out b'-' ≡ join_dash (ws ++ words_from u w s)
  unfolding slug_loop words_from
  trim-slug_loop ws w [] h k = trim-glue ws w h k
  trim-slug_loop ws w (c ∷ s) h k =
      let from = λ (b : Builder). trim (slug_loop u b s).out b'-' in
      elim (Bool-cases (is_kept u c)) [
        | inl e ↦ rw e (
            ap from (slug_step-kept ws w c e)
            ∙ trim-slug_loop ws (w ++ c ∷ []) s h
                (All-append _ w (c ∷ []) k (kept-ne-dash c e, tt)))
        | inr e ↦ elim (Bool-cases (is_separator c)) [
          | inl f ↦
              rw (e, f)
                (ap from (slug_step-separator ws w c e f)
                  ∙ trim-slug_loop (ws ++ close_word w []) [] s (All-close_word ws w h k) tt
                  ∙ ap join_dash (close_regroup ws w (words_from u [] s)))
          | inr f ↦ rw (e, f) (ap from (slug_step-skipped ws w c e f) ∙ trim-slug_loop ws w s h k)
        ]
      ]

-- Before the fallbacks, a slug is the words of the input in lower case (its runs of letters and
-- digits, ended by spaces, dashes, underscores and full stops, all other code points skipped)
-- joined by single dashes.
pub slug_of-words :
    (u : Unicode) (input : Text) → slug_of u input ≡ join_dash (words_from u [] (to_lower u input))
unfolding slug_of glue
slug_of-words u input = trim-slug_loop u [] [] (to_lower u input) tt tt

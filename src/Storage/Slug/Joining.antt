-- ===== src/Storage/Slug/Joining.antt =====
-- Words joined by dashes, and what trimming dashes leaves of them.
use frego_finance.Prelude.{
  ℕ, ◌≡◌, refl, ◌≢◌, Bool, List, [], ◌∷◌, ◌++◌, append_assoc, append-nil, arith, ◌==◌, nat_eq, Text,
  text_eq, All, All-append,
}
use frego_finance.Strings.{trim}
use frego_finance.Strings.Trimming.{Starts, Ends, Ends-append, trim_func-concat}

unfoldable pub join_dash : List Text → Text
join_dash [] = []
join_dash (w ∷ []) = w
join_dash (w ∷ v ∷ ws) = w ++ (b'-' ∷ join_dash (v ∷ ws))

-- What the loop has written: the complete words, each with a dash behind it, and the word begun.
unfoldable pub glue : List Text → Text → Text
glue [] w = w
glue (v ∷ ws) w = v ++ (b'-' ∷ glue ws w)

pub glue-append : (ws : List Text) (w t : Text) → glue ws w ++ t ≡ glue ws (w ++ t)
unfolding glue
glue-append [] w t = refl
glue-append (v ∷ ws) w t = simp (append_assoc, glue-append ws w t)

pub glue-close : (ws : List Text) (w : Text) → glue ws (w ++ b'-' ∷ []) ≡ glue (ws ++ w ∷ []) []
unfolding glue
glue-close [] w = refl
glue-close (v ∷ ws) w = rw (glue-close ws w)

pub join_dash-concat : (ws : List Text) (w : Text) → join_dash (ws ++ w ∷ []) ≡ glue ws w
unfolding join_dash glue
join_dash-concat [] w = refl
join_dash-concat (v ∷ []) w = refl
join_dash-concat (v ∷ x ∷ ws) w = rw (join_dash-concat (x ∷ ws) w)

pub glue-nil : (v : Text) (ws : List Text) → glue (v ∷ ws) [] ≡ join_dash (v ∷ ws) ++ b'-' ∷ []
unfolding join_dash glue
glue-nil v [] = refl
glue-nil v (x ∷ ws) = simp (glue-nil x ws, append_assoc)

-- Words hold no dash, and are not empty.
abbrev pub IsWord : Text → Type 0
IsWord w = All (λ c. c ≢ b'-') w × (w ≢ [])

abbrev pub is_dash : ℕ → Bool
is_dash c = c == b'-'

Starts-word : (w t : Text) → IsWord w → Starts is_dash (w ++ t)
Starts-word [] t h = absurd (h.1 refl)
Starts-word (c ∷ w) t ((h, _), _) = ground arith

Ends-word : (w : Text) → All (λ c. c ≢ b'-') w → Ends is_dash w
Ends-word [] _ = tt
Ends-word (c ∷ []) (h, _) = ground arith
Ends-word (c ∷ d ∷ w) (_, h) = Ends-word (d ∷ w) h

append-ne-nil : (w t : Text) → w ≢ [] → w ++ t ≢ []
append-ne-nil [] t h k = h refl
append-ne-nil (c ∷ w) t h k = cc

pub join_dash-ne-nil : (w : Text) (ws : List Text) → IsWord w → join_dash (w ∷ ws) ≢ []
unfolding join_dash
join_dash-ne-nil w [] h = h.1
join_dash-ne-nil w (v ∷ ws) h = append-ne-nil w _ h.1

pub Starts-join_dash : (ws : List Text) → All IsWord ws → Starts is_dash (join_dash ws)
unfolding join_dash
Starts-join_dash [] _ = tt
Starts-join_dash (w ∷ []) (h, _) = rw (← append-nil w) (Starts-word w [] h)
Starts-join_dash (w ∷ v ∷ ws) (h, _) = Starts-word w _ h

pub Ends-join_dash : (ws : List Text) → All IsWord ws → Ends is_dash (join_dash ws)
unfolding join_dash
Ends-join_dash [] _ = tt
Ends-join_dash (w ∷ []) (h, _) = Ends-word w h.0
Ends-join_dash (w ∷ v ∷ ws) (_, h) = Ends-append is_dash w _ (cc) (
    Ends-append is_dash (b'-' ∷ []) (join_dash (v ∷ ws)) (join_dash-ne-nil v ws h.0)
      (Ends-join_dash (v ∷ ws) h))

pub trim_dash :
    (s : Text) → s ≢ [] → Starts is_dash s → Ends is_dash s → trim (s ++ b'-' ∷ []) b'-' ≡ s
unfolding trim
trim_dash [] h _ _ = absurd (h refl)
trim_dash (d ∷ s) _ h k = trim_func-concat is_dash d s b'-' h k refl

pub All-concat : (ws : List Text) (w : Text) → All IsWord ws → IsWord w → All IsWord (ws ++ w ∷ [])
All-concat ws w h k = All-append IsWord ws (w ∷ []) h (k, tt)

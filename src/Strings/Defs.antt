-- ===== src/Strings/Defs.antt =====
-- strings.TrimSpace, Trim, HasSuffix, TrimSuffix, SplitN, Fields, ReplaceAll, ToLower, EqualFold,
-- unicode.IsLetter and IsDigit, and the verb %0wd of fmt.Sprintf.
use frego_finance.Prelude.{
  ℕ, zero, suc, ◌+◌, ◌-◌, ◌/◌, ◌%◌, Bool, true, false, ◌&&◌, ◌||◌, List, [], ◌∷◌, ◌++◌, map, Text,
  ltb, leb, ◌==◌, nat_eq, text_eq, length, if◌then◌else◌,
}

-- The tables that Go's package unicode holds for code points from 128 on. `fold` picks one member
-- of the orbit of unicode.SimpleFold.
pub record Unicode : Type 0 where
  pub letter : ℕ → Bool
  pub digit : ℕ → Bool
  pub lower : ℕ → ℕ
  pub upper : ℕ → ℕ
  pub fold : ℕ → ℕ

abbrev pub is_upper_ascii : ℕ → Bool
is_upper_ascii c = leb b'A' c && leb c b'Z'

abbrev pub is_lower_ascii : ℕ → Bool
is_lower_ascii c = leb b'a' c && leb c b'z'

-- unicode.IsSpace: the code points with the property White_Space
unfoldable pub is_space : ℕ → Bool
is_space c =
    (leb 9 c && leb c 13)
    || (c == 0x20)
    || (c == 0x85)
    || (c == 0xa0)
    || (c == 0x1680)
    || (leb 0x2000 c && leb c 0x200a)
    || (c == 0x2028)
    || (c == 0x2029)
    || (c == 0x202f)
    || (c == 0x205f)
    || (c == 0x3000)

module _ (u : Unicode) where
  unfoldable pub is_letter : ℕ → Bool
  is_letter c = if ltb c 128 then is_upper_ascii c || is_lower_ascii c else u.letter c

  unfoldable pub is_digit : ℕ → Bool
  is_digit c = if ltb c 128 then leb b'0' c && leb c b'9' else u.digit c

  unfoldable pub lower_rune : ℕ → ℕ
  lower_rune c = if ltb c 128 then (if is_upper_ascii c then c + 32 else c) else u.lower c

  unfoldable pub upper_rune : ℕ → ℕ
  upper_rune c = if ltb c 128 then (if is_lower_ascii c then c - 32 else c) else u.upper c

  unfoldable pub fold_rune : ℕ → ℕ
  fold_rune c = if ltb c 128 then (if is_upper_ascii c then c + 32 else c) else u.fold c

  -- strings.ToLower
  unfoldable pub to_lower : Text → Text
  to_lower s = map lower_rune s

  -- strings.ToUpper
  unfoldable pub to_upper : Text → Text
  to_upper s = map upper_rune s

  -- strings.EqualFold
  unfoldable pub equal_fold : Text → Text → Bool
  equal_fold s t = map fold_rune s == map fold_rune t

-- What is left of a text behind the leading code points that satisfy the test.
unfoldable pub trim_left : (ℕ → Bool) → Text → Text
trim_left p [] = []
trim_left p (c ∷ s) = if p c then trim_left p s else c ∷ s

abbrev pub keep : Bool → ℕ → Text → Text
keep true c [] = []
keep false c [] = c ∷ []
keep _ c (d ∷ s) = c ∷ d ∷ s

unfoldable pub trim_right : (ℕ → Bool) → Text → Text
trim_right p [] = []
trim_right p (c ∷ s) = keep (p c) c (trim_right p s)

unfoldable pub trim_func : (ℕ → Bool) → Text → Text
trim_func p s = trim_right p (trim_left p s)

-- strings.TrimSpace
unfoldable pub trim_space : Text → Text
trim_space = trim_func is_space

-- strings.Trim with a cutset of one code point
unfoldable pub trim : Text → ℕ → Text
trim s cut = trim_func (λ c. c == cut) s

unfoldable pub starts_with : Text → Text → Bool
starts_with s [] = true
starts_with [] (d ∷ t) = false
starts_with (c ∷ s) (d ∷ t) = c == d && starts_with s t

-- strings.HasSuffix
unfoldable pub has_suffix : Text → Text → Bool
has_suffix [] t = [] == t
has_suffix (c ∷ s) t = (c ∷ s) == t || has_suffix s t

-- strings.TrimSuffix
unfoldable pub trim_suffix : Text → Text → Text
trim_suffix [] t = []
trim_suffix (c ∷ s) t = if (c ∷ s) == t then [] else c ∷ trim_suffix s t

unfoldable pub push_first : ℕ → List Text → List Text
push_first c [] = []
push_first c (p ∷ ps) = (c ∷ p) ∷ ps

-- strings.SplitN(s, sep, 2) with a separator of one code point
unfoldable pub split_n2 : Text → ℕ → List Text
split_n2 [] sep = [] ∷ []
split_n2 (c ∷ s) sep = if c == sep then [] ∷ s ∷ [] else push_first c (split_n2 s sep)

abbrev flush : Text → List Text → List Text
flush [] ps = ps
flush (c ∷ cur) ps = (c ∷ cur) ∷ ps

fields_from : Text → Text → List Text
fields_from cur [] = flush cur []
fields_from cur (c ∷ s) =
    let cut = flush cur (fields_from [] s) in
    let longer = fields_from (cur ++ c ∷ []) s in if is_space c then cut else longer

-- strings.Fields
unfoldable pub fields : Text → List Text
unfolding fields_from
fields s = fields_from [] s

-- `skip` counts the code points of a match that are still to be passed over.
unfoldable pub replace_from : Text → Text → ℕ → Text → Text
replace_from old new skip [] = []
replace_from old new (suc skip) (c ∷ s) = replace_from old new skip s
replace_from old new zero (c ∷ s) =
    let after = new ++ replace_from old new (length old - 1) s in
    let copied = c ∷ replace_from old new zero s in
    if starts_with (c ∷ s) old then after else copied

-- strings.ReplaceAll where the text to replace is not empty
unfoldable pub replace_all : Text → Text → Text → Text
unfolding replace_from
replace_all s old new = replace_from old new zero s

unfoldable pub digits_from : ℕ → ℕ → Text → Text
digits_from zero n out = out
digits_from (suc fuel) n out =
    let rest = digits_from fuel (n / 10) ((b'0' + n % 10) ∷ out) in if n == 0 then out else rest

abbrev pub pad : ℕ → Text → Text
pad zero s = s
pad (suc k) s = b'0' ∷ pad k s

-- fmt.Sprintf("%0wd", n). A number has no more decimal digits than its size.
unfoldable pub sprintf_padded : ℕ → ℕ → Text
unfolding digits_from
sprintf_padded width n =
    let ds = if n == 0 then b'0' ∷ [] else digits_from n n [] in pad (width - length ds) ds

-- ===== src/Storage/S3/Keys.antt =====
-- The shape of object keys: elements below the prefix, whatever names the caller gives.
use frego_finance.Prelude.{
  ℕ, zero, suc, ◌+◌, ◌-◌, ◌/◌, ◌%◌, ◌≤◌, ◌<◌, ◌≡◌, refl, ◌≢◌, inl, inr, [], ◌∷◌, ◌++◌, arith,
  if◌then◌else◌, Bool-cases, ◌==◌, nat_eq, Text, text_beq, text_eq, codes, length, All, All-append,
}
use frego_finance.Strings.{
  trim_func, trim_left, trim_right, is_space, starts_with, Unicode, trim_space, replace_all,
  sprintf_padded, digits_from, pad,
}
use frego_finance.Paths.{dot, dot_dot}
use frego_finance.Paths.Laws.{NoSlash, IsPlain}
use frego_finance.Context.{Uuid}
use frego_finance.Storage.Types.{Party}
use frego_finance.Storage.Slug.{slugify_name, sanitize_file_name, sanitize_path_token}
use frego_finance.Storage.Slug.Safe.{
  slugify_name_cases, sanitize_file_name-IsSafeName, IsSlugRune, IsSlugRune-ne,
}
use frego_finance.Storage.S3.{Env, dashed, default_if_empty, key_parts}

NoSlash-append : (s t : Text) → NoSlash s → NoSlash t → NoSlash (s ++ t)
NoSlash-append = All-append (λ c. c ≢ b'/')

dashed-ne : (s t : Text) → (dashed s t ≢ []) × (dashed s t ≢ dot) × (dashed s t ≢ dot_dot)
dashed-ne [] t = (ground arith, ground arith, ground arith)
dashed-ne (c ∷ []) t = (ground arith, ground arith, ground arith)
dashed-ne (c ∷ d ∷ []) t = (ground arith, ground arith, ground arith)
dashed-ne (c ∷ d ∷ e ∷ s) t = (ground arith, ground arith, ground arith)

-- A text with a dash inside and no slash is an element of a path like any other.
dashed-IsPlain : (s t : Text) → NoSlash s → NoSlash t → IsPlain (dashed s t)
dashed-IsPlain s t h k =
    let (a, b, c) = dashed-ne s t in (NoSlash-append s (b'-' ∷ t) h (omega arith, k), a, b, c)

-- An element with no slash that does not begin with a full stop is plain.
IsPlain-cons : (c : ℕ) (s : Text) → NoSlash (c ∷ s) → c ≢ b'.' → IsPlain (c ∷ s)
IsPlain-cons c s h k = (h, ground arith, ground arith, ground arith)

abbrev IsDigitRune : ℕ → Type 0
IsDigitRune c = (b'0' ≤ c) × (c ≤ b'9')

NoSlash-digits : (s : Text) → All IsDigitRune s → NoSlash s
NoSlash-digits [] _ = tt
NoSlash-digits (c ∷ s) (h, k) = (omega arith, NoSlash-digits s k)

digits-IsPlain : (s : Text) → s ≢ [] → All IsDigitRune s → IsPlain s
digits-IsPlain [] h _ = absurd (h refl)
digits-IsPlain (c ∷ s) h (k, l) = IsPlain-cons c s (NoSlash-digits (c ∷ s) (k, l)) (omega arith)

digits_from-All :
    (fuel n : ℕ) (out : Text) → All IsDigitRune out → All IsDigitRune (digits_from fuel n out)
unfolding digits_from
digits_from-All zero n out h = h
digits_from-All (suc fuel) n out h =
    ground (arith, digits_from-All fuel (n / 10) ((b'0' + n % 10) ∷ out))

pad-All : (k : ℕ) (s : Text) → All IsDigitRune s → All IsDigitRune (pad k s)
pad-All zero s h = h
pad-All (suc k) s h = (omega arith, pad-All k s h)

pad-cons-ne-nil : (k c : ℕ) (s : Text) → pad k (c ∷ s) ≢ []
pad-cons-ne-nil zero c s = cc
pad-cons-ne-nil (suc k) c s = cc

pad-nil-ne-nil : (w : ℕ) → 0 < w → pad w [] ≢ []
pad-nil-ne-nil zero h = elim h [ ]
pad-nil-ne-nil (suc w) h = cc

pad-ne-nil : (w : ℕ) (s : Text) → 0 < w → pad (w - length s) s ≢ []
pad-ne-nil w [] h = let e : w - 0 ≡ w = omega arith in rw e (pad-nil-ne-nil w h)
pad-ne-nil w (c ∷ s) h = pad-cons-ne-nil (w - suc (length s)) c s

-- A number that is printed with leading zeros is an element of a path.
sprintf_padded-IsPlain : (w n : ℕ) → 0 < w → IsPlain (sprintf_padded w n)
unfolding sprintf_padded
sprintf_padded-IsPlain w n h =
    let ds = if n == 0 then b'0' ∷ [] else digits_from n n [] in
    let all : All IsDigitRune ds = elim (Bool-cases (n == 0)) [
      | inl e ↦ rw e (omega arith)
      | inr e ↦ rw e (digits_from-All n n [] tt)
    ] in
    digits-IsPlain (pad (w - length ds) ds) (pad-ne-nil w ds h) (pad-All (w - length ds) ds all)

slug_runes-IsPlain :
    (u : Unicode) (s : Text) → s ≢ [] → NoSlash s → All (IsSlugRune u) s → IsPlain s
slug_runes-IsPlain u [] h _ _ = absurd (h refl)
slug_runes-IsPlain u (c ∷ s) h n (k, _) = IsPlain-cons c s n (IsSlugRune-ne u c k).1

document_token : sanitize_path_token (codes "document") ≡ codes "document"
unfolding sanitize_path_token trim_space trim_func trim_left trim_right is_space replace_all
    starts_with text_beq
document_token = refl

-- The slug of a document's type is plain, since its fallback is.
doc_slug-IsPlain : (u : Unicode) (t : Text) → IsPlain (slugify_name u t (codes "document"))
doc_slug-IsPlain u t =
    let (some_rune, no_slash, made) = slugify_name_cases u t (codes "document") in
    elim made [
      | inl runes ↦ slug_runes-IsPlain u _ some_rune no_slash runes
      | inr e ↦
          rw (e, document_token) (IsPlain-cons b'd' (codes "ocument") (omega arith) (omega arith))
    ]

NoSlash-default : (s d : Text) → NoSlash s → NoSlash d → NoSlash (default_if_empty s d)
NoSlash-default [] d h k = k
NoSlash-default (c ∷ s) d h k = h

NoSlash-sanitize_file_name : (name : Text) → NoSlash (sanitize_file_name name)
NoSlash-sanitize_file_name name = elim (sanitize_file_name-IsSafeName name) [
  | inl e ↦ rw e tt
  | inr safe ↦ safe.0
]

module _ (u : Unicode) (env : Env) (p : Party) (file : Text) (id_ok : NoSlash p.tenant_id)
    (text_ok : (x : Uuid) → NoSlash (env.uuid_text x)) where
  -- Each element of a key below the prefix is plain, if the tenant's identifier and the texts of
  -- UUIDs hold no slash.
  pub key_parts-IsPlain : All IsPlain (key_parts u env p file)
  unfolding key_parts
  key_parts-IsPlain =
      let doc = slugify_name u p.doc_type (codes "document") in
      let name = default_if_empty (sanitize_file_name file) (doc ++ codes ".bin") in
      let named : NoSlash name =
        NoSlash-default (sanitize_file_name file) (doc ++ codes ".bin")
          (NoSlash-sanitize_file_name file)
          (NoSlash-append doc (codes ".bin") (doc_slug-IsPlain u p.doc_type).0 (omega arith)) in
      let last : IsPlain (dashed (env.uuid_text env.unique) name) =
        dashed-IsPlain (env.uuid_text env.unique) name (text_ok env.unique) named in
      let dated : All IsPlain (
          sprintf_padded 4 env.year
          ∷ sprintf_padded 2 env.month
          ∷ sprintf_padded 2 env.day
          ∷ dashed (env.uuid_text env.unique) name
          ∷ []) =
        (
          sprintf_padded-IsPlain 4 env.year (omega arith),
          (
            sprintf_padded-IsPlain 2 env.month (omega arith),
            (sprintf_padded-IsPlain 2 env.day (omega arith), (last, tt)),
          ),
        ) in
      (
        IsPlain-cons b't' (codes "enants") (omega arith) (omega arith),
        (
          dashed-IsPlain _ p.tenant_id (slugify_name_cases u p.tenant_name p.tenant_id).1 id_ok,
          (
            IsPlain-cons b'p' (codes "arties") (omega arith) (omega arith),
            (
              dashed-IsPlain _ (env.uuid_text p.party_id)
                  (slugify_name_cases u p.party_name (env.uuid_text p.party_id)).1
                  (text_ok p.party_id),
              (doc_slug-IsPlain u p.doc_type, dated),
            ),
          ),
        ),
      )

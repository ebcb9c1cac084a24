-- ===== src/Storage/Slug/Safe.antt =====
-- Which code points a slug and a file name can hold.
use frego_finance.Prelude.{
  ℕ, ◌≡◌, refl, sym, ◌∙◌, ◌≢◌, ◌⊎◌, inl, inr, true, false, not, ◌&&◌, ◌||◌, [], ◌∷◌, arith,
  if◌then◌else◌, Bool-cases, ◌==◌, nat_eq, Text, text_beq_iff, text_eq, codes, All, All-append,
}
use frego_finance.Strings.{
  Unicode, is_letter, is_digit, trim_space, trim, replace_all, to_lower, replace_from, starts_with,
}
use frego_finance.Strings.Splitting.{Lacks}
use frego_finance.Strings.Trimming.{trim_func-All}
use frego_finance.Strings.Replacing.{
  NoTwoDots, two_dots, replace_all-NoTwoDots, replace_all-Lacks, replace_all-All,
}
use frego_finance.Paths.{base, dot, slash}
use frego_finance.Paths.Laws.{NoSlash, base_cases}
use frego_finance.Storage.Slug.{
  Builder, is_kept, is_separator, write_dash, slug_step, slug_loop, slug_of, slugify_name,
  sanitize_path_token, checked_name, sanitize_file_name,
}

-- A file name that is safe as one element of a path.
abbrev pub IsSafeName : Text → Type 0
IsSafeName name = NoSlash name × NoTwoDots name × (name ≢ []) × (name ≢ dot) × (name ≢ codes "..")

NoTwoDots-ne : (s : Text) → NoTwoDots s → s ≢ codes ".."
unfolding starts_with
NoTwoDots-ne s h e = let k : NoTwoDots (codes "..") = rw e at h in cc k.0

checked_name_cases :
    (s : Text)
    → NoTwoDots s
    → (s ≡ slash) ⊎ NoSlash s
    → (checked_name s ≡ []) ⊎ IsSafeName (checked_name s)
unfolding checked_name
checked_name_cases s h k = elim (Bool-cases (s == dot || s == slash || s == [])) [
  | inl e ↦ inl (rw e)
  | inr e ↦ inr (
      rw e (
        elim k [ inl bare ↦ absurd (ground (arith, text_beq_iff s slash)) | inr clean ↦ clean ],
        h,
        ground (arith, text_beq_iff s []),
        ground (arith, text_beq_iff s dot),
        NoTwoDots-ne s h,
      ))
]

deleted_cases :
    (s : Text)
    → (s ≡ slash) ⊎ NoSlash s
    → (replace_all s two_dots [] ≡ slash) ⊎ NoSlash (replace_all s two_dots [])
unfolding replace_all replace_from starts_with
deleted_cases s (inl e) = inl (rw e)
deleted_cases s (inr h) = inr (replace_all-All (λ c. c ≢ b'/') two_dots s h)

-- A file name is sanitised to nothing, or to one element of a path that holds no slash and no two
-- full stops beside one another, and is neither ".", ".." nor empty.
pub sanitize_file_name-IsSafeName :
    (name : Text) → (sanitize_file_name name ≡ []) ⊎ IsSafeName (sanitize_file_name name)
unfolding sanitize_file_name
sanitize_file_name-IsSafeName name =
    checked_name_cases _ (replace_all-NoTwoDots (base (trim_space name)))
      (deleted_cases (base (trim_space name)) (base_cases (trim_space name)))

-- A path token never comes out empty, and holds neither a slash nor a backslash.
pub sanitize_path_token-Lacks :
    (value : Text)
    → (sanitize_path_token value ≢ [])
      × NoSlash (sanitize_path_token value)
      × Lacks b'\\' (sanitize_path_token value)
unfolding sanitize_path_token
sanitize_path_token-Lacks value =
    let once = replace_all (trim_space value) (codes "..") [] in
    let twice = replace_all once (codes "/") [] in
    let no_slash : NoSlash (replace_all twice (codes "\\") []) =
      replace_all-All (λ c. c ≢ b'/') (codes "\\") twice (replace_all-Lacks once b'/') in
    let no_back : Lacks b'\\' (replace_all twice (codes "\\") []) = replace_all-Lacks twice b'\\' in
    elim (Bool-cases (replace_all twice (codes "\\") [] == [])) [
      | inl e ↦ rw e ((cc), (omega arith), (omega arith))
      | inr e ↦
          rw e (
            (ground (arith, text_beq_iff (replace_all twice (codes "\\") []) [])),
            no_slash,
            no_back,
          )
    ]

module _ (u : Unicode) where
  -- What a slug is made of: letters, digits and dashes.
  abbrev pub IsSlugRune : ℕ → Type 0
  IsSlugRune c = (is_kept u c ≡ true) ⊎ (c ≡ b'-')

  write_dash-All : (b : Builder) → All IsSlugRune b.out → All IsSlugRune (write_dash b).out
  unfolding write_dash
  write_dash-All b h = elim (Bool-cases (not b.last_dash && not (b.out == []))) [
    | inl e ↦ rw e (All-append IsSlugRune b.out (b'-' ∷ []) h (inr refl, tt))
    | inr e ↦ rw e h
  ]

  slug_step-All :
      (b : Builder) (c : ℕ) → All IsSlugRune b.out → All IsSlugRune (slug_step u b c).out
  unfolding slug_step
  slug_step-All b c h = elim (Bool-cases (is_kept u c)) [
    | inl e ↦ rw e (All-append IsSlugRune b.out (c ∷ []) h (inl e, tt))
    | inr e ↦ elim (Bool-cases (is_separator c)) [
      | inl f ↦ rw (e, f) (write_dash-All b h)
      | inr f ↦ rw (e, f) h
    ]
  ]

  slug_loop-All :
      (b : Builder) (s : Text) → All IsSlugRune b.out → All IsSlugRune (slug_loop u b s).out
  unfolding slug_loop
  slug_loop-All b [] h = h
  slug_loop-All b (c ∷ s) h = slug_loop-All (slug_step u b c) s (slug_step-All b c h)

  slug_of-All : (input : Text) → All IsSlugRune (slug_of u input)
  unfolding slug_of trim
  slug_of-All input =
      trim_func-All (λ c. c == b'-') IsSlugRune _
        (slug_loop-All (record { out = []; last_dash = false }) (to_lower u input) tt)

  pub IsSlugRune-ne : (c : ℕ) → IsSlugRune c → (c ≢ b'/') × (c ≢ b'.')
  unfolding is_letter is_digit
  IsSlugRune-ne c h = (ground arith, ground arith)

  IsSlugRune-NoSlash : (s : Text) → All IsSlugRune s → NoSlash s
  IsSlugRune-NoSlash [] _ = tt
  IsSlugRune-NoSlash (c ∷ s) (h, hs) = ((IsSlugRune-ne c h).0, IsSlugRune-NoSlash s hs)

  -- The result of slugifyName is made of letters, digits and dashes, or is the fallback as a
  -- sanitised path token; either way it is not empty and holds no slash.
  pub slugify_name_cases :
      (value fallback : Text)
      → (slugify_name u value fallback ≢ [])
        × NoSlash (slugify_name u value fallback)
        × (All IsSlugRune (slugify_name u value fallback)
            ⊎ (slugify_name u value fallback ≡ sanitize_path_token fallback))
  unfolding slugify_name
  slugify_name_cases value fallback =
      let trimmed = trim_space value in
      let slug = slug_of u (if trimmed == [] then fallback else trimmed) in
      let runes : All IsSlugRune slug = slug_of-All (if trimmed == [] then fallback else trimmed) in
      let (some_token, no_slash, _) = sanitize_path_token-Lacks fallback in
      elim (Bool-cases (slug == [])) [
        | inl e ↦ elim (Bool-cases (sanitize_path_token fallback == [])) [
          | inl f ↦ absurd (some_token ((text_beq_iff (sanitize_path_token fallback) []).0 f))
          | inr f ↦ rw (e, f) (some_token, no_slash, inr refl)
        ]
        | inr e ↦
            rw (e, e)
              (
                (λ z. cc (sym e ∙ (text_beq_iff slug []).1 z)),
                IsSlugRune-NoSlash slug runes,
                inl runes,
              )
      ]

-- ===== src/Storage/S3/Placement.antt =====
-- Where documents are placed: the key as the elements of the prefix and of the document, and the
-- separation of tenants.
use frego_finance.Prelude.{
  ℕ, ◌≡◌, refl, sym, ap, ◌∙◌, ◌≢◌, List, [], ◌∷◌, ◌++◌, arith, nat_eq, Text, text_eq, length,
  length-append, All, All-append,
}
use mathlib.Core.List.{append_cancel_left}
use frego_finance.Strings.{Unicode}
use frego_finance.Paths.{join_slash, split_slash}
use frego_finance.Paths.Laws.{
  NoSlash, IsPlain, path_join-IsPlain, path_join-prefix, join_slash-ne-nil, join_slash-nil,
  split_slash-join_slash, All-NoSlash,
}
use frego_finance.Context.{Uuid}
use frego_finance.Storage.Types.{Party}
use frego_finance.Storage.Slug.{slugify_name}
use frego_finance.Storage.S3.{Env, dashed, under_prefix, key_parts, build_object_key}
use frego_finance.Storage.S3.Keys.{key_parts-IsPlain}

under_prefix-cons : (s : Text) (parts : List Text) → s ≢ [] → under_prefix s parts ≡ s ∷ parts
under_prefix-cons [] parts h = absurd (h refl)
under_prefix-cons (c ∷ s) parts h = refl

suffix_eq :
    (s s' t t' : Text) (c : ℕ) → length t ≡ length t' → s ++ (c ∷ t) ≡ s' ++ (c ∷ t') → t ≡ t'
suffix_eq [] [] t t' c l e = cc
suffix_eq [] (d ∷ s') t t' c l e = absurd (omega (arith, ap length e, length-append s' (c ∷ t')))
suffix_eq (d ∷ s) [] t t' c l e = absurd (omega (arith, ap length e, length-append s (c ∷ t)))
suffix_eq (d ∷ s) (d' ∷ s') t t' c l e =
    let h : s ++ (c ∷ t) ≡ s' ++ (c ∷ t') = cc e in suffix_eq s s' t t' c l h

second : List Text → Text
second (x ∷ y ∷ r) = y
second _ = []

module _ (u : Unicode) (env : Env) (text_ok : (x : Uuid) → NoSlash (env.uuid_text x)) where
  -- The key of a document is the elements of the prefix and then the elements of the document,
  -- with slashes between them and nothing dropped, each of them an ordinary path element (not
  -- empty, neither "." nor "..", no slash inside), if the tenant's identifier and the texts of
  -- UUIDs hold no slash and the prefix is made of ordinary elements, whatever the names and the file
  -- are.
  pub build_object_key-join_slash :
      (elements : List Text) (p : Party) (file : Text)
      → All IsPlain elements
      → NoSlash p.tenant_id
      → (build_object_key u env (join_slash elements) p file
          ≡ join_slash (elements ++ key_parts u env p file))
        × All IsPlain (elements ++ key_parts u env p file)
  unfolding build_object_key key_parts
  build_object_key-join_slash [] p file _ id_ok =
      let plain = key_parts-IsPlain u env p file id_ok text_ok in
      (rw join_slash-nil (path_join-IsPlain _ _ plain), plain)
  build_object_key-join_slash (q ∷ qs) p file h id_ok =
      let plain = key_parts-IsPlain u env p file id_ok text_ok in
      (
        rw
            (under_prefix-cons (join_slash (q ∷ qs)) (key_parts u env p file)
              (join_slash-ne-nil q qs h.0.1))
            (path_join-prefix q qs _ _ h plain),
        All-append IsPlain (q ∷ qs) (key_parts u env p file) h plain,
      )

split_slash-join : (ps : List Text) → ps ≢ [] → All IsPlain ps → split_slash (join_slash ps) ≡ ps
split_slash-join [] h _ = absurd (h refl)
split_slash-join (p ∷ ps) _ h = split_slash-join_slash p ps (All-NoSlash (p ∷ ps) h)

append-key_parts-ne-nil :
    (u : Unicode) (env : Env) (elements : List Text) (p : Party) (file : Text)
    → elements ++ key_parts u env p file ≢ []
unfolding key_parts
append-key_parts-ne-nil u env [] p file = cc
append-key_parts-ne-nil u env (q ∷ qs) p file = cc

second-key_parts :
    (u : Unicode) (env : Env) (p : Party) (file : Text)
    → second (key_parts u env p file)
      ≡ dashed (slugify_name u p.tenant_name p.tenant_id) p.tenant_id
unfolding second key_parts
second-key_parts u env p file = refl

last_of : List Text → Text
last_of [] = []
last_of (x ∷ []) = x
last_of (x ∷ y ∷ r) = last_of (y ∷ r)

last_of-key_parts :
    (u : Unicode) (env : Env) (p : Party) (file : Text)
    → (name : Text) × (last_of (key_parts u env p file) ≡ dashed (env.uuid_text env.unique) name)
unfolding last_of key_parts
last_of-key_parts u env p file = (_, refl)

prefix_eq : (s s' t t' : Text) → length s ≡ length s' → s ++ t ≡ s' ++ t' → s ≡ s'
prefix_eq [] [] t t' l e = refl
prefix_eq [] (d ∷ s') t t' l e = absurd (omega (arith, l))
prefix_eq (c ∷ s) [] t t' l e = absurd (omega (arith, l))
prefix_eq (c ∷ s) (d ∷ s') t t' l e =
    let h : s ++ t ≡ s' ++ t' = cc e in
    let k : length s ≡ length s' = omega (arith, l) in cc (e, prefix_eq s s' t t' k h)

-- Two documents of one key, put under the same prefix.
module _ (u : Unicode) (env env' : Env) (elements : List Text) (p p' : Party) (file file' : Text)
    (text_ok : (x : Uuid) → NoSlash (env.uuid_text x))
    (text_ok' : (x : Uuid) → NoSlash (env'.uuid_text x)) (plain : All IsPlain elements)
    (id_ok : NoSlash p.tenant_id) (id_ok' : NoSlash p'.tenant_id) where
  key_parts_eq :
      build_object_key u env (join_slash elements) p file
        ≡ build_object_key u env' (join_slash elements) p' file'
      → key_parts u env p file ≡ key_parts u env' p' file'
  key_parts_eq e =
      let (k, h) = build_object_key-join_slash u env text_ok elements p file plain id_ok in
      let (k', h') = build_object_key-join_slash u env' text_ok' elements p' file' plain id_ok' in
      append_cancel_left elements _ _ (
        sym (split_slash-join _ (append-key_parts-ne-nil u env elements p file) h)
        ∙ ap split_slash (sym k ∙ e ∙ k')
        ∙ split_slash-join _ (append-key_parts-ne-nil u env' elements p' file') h')

  -- They were put with the same fresh UUID, if the texts of the two are equally long.
  pub build_object_key-unique :
      length (env.uuid_text env.unique) ≡ length (env'.uuid_text env'.unique)
      → build_object_key u env (join_slash elements) p file
        ≡ build_object_key u env' (join_slash elements) p' file'
      → env.uuid_text env.unique ≡ env'.uuid_text env'.unique
  build_object_key-unique same e =
      let (name, h) = last_of-key_parts u env p file in
      let (name', h') = last_of-key_parts u env' p' file' in
      prefix_eq _ _ (b'-' ∷ name) (b'-' ∷ name') same (sym h ∙ ap last_of (key_parts_eq e) ∙ h')

-- Two documents with the same object key, put under the same prefix at any two moments, belong to
-- the same tenant, if the tenants' identifiers are equally long (as UUIDs are) and hold no slash,
-- the texts of UUIDs hold none, and the prefix is made of ordinary path elements.
pub build_object_key-tenant_id :
    (u : Unicode) (env env' : Env) (elements : List Text) (p p' : Party) (file file' : Text)
    → ((x : Uuid) → NoSlash (env.uuid_text x))
    → ((x : Uuid) → NoSlash (env'.uuid_text x))
    → All IsPlain elements
    → NoSlash p.tenant_id
    → NoSlash p'.tenant_id
    → length p.tenant_id ≡ length p'.tenant_id
    → build_object_key u env (join_slash elements) p file
      ≡ build_object_key u env' (join_slash elements) p' file'
    → p.tenant_id ≡ p'.tenant_id
build_object_key-tenant_id u env env' elements p p' file file' ok1 ok2 h id_ok id_ok' same e =
    let places =
      ap second (key_parts_eq u env env' elements p p' file file' ok1 ok2 h id_ok id_ok' e) in
    suffix_eq _ _ p.tenant_id p'.tenant_id b'-' same
      (sym (second-key_parts u env p file) ∙ places ∙ second-key_parts u env' p' file')

-- ===== src/Storage/S3/KeyEnds.antt =====
-- Object keys neither begin nor end in white space, so a download does not trim anything off.
use frego_finance.Prelude.{
  ℕ, ◌≡◌, refl, ap, ◌≢◌, inl, inr, List, [], ◌∷◌, ◌++◌, arith, nat_eq, Text, text_eq, codes, All,
}
use frego_finance.Strings.{Unicode, trim_space, is_space, starts_with, sprintf_padded}
use frego_finance.Strings.Trimming.{Starts, Ends, Ends-append, trim_func_of_Ends}
use frego_finance.Paths.{join_slash}
use frego_finance.Paths.Laws.{NoSlash, IsPlain}
use frego_finance.Context.{Uuid}
use frego_finance.Storage.Types.{Party}
use frego_finance.Storage.Slug.{sanitize_file_name, slugify_name}
use frego_finance.Storage.Slug.Safe.{sanitize_file_name-IsSafeName}
use frego_finance.Storage.Slug.Names.{sanitize_file_name-Ends}
use frego_finance.Storage.S3.{Env, dashed, default_if_empty, key_parts, build_object_key}
use frego_finance.Storage.S3.Placement.{build_object_key-join_slash}

-- The setting in which keys are sound: the prefix is made of ordinary path elements and begins
-- with no white space, and neither the tenant's identifier nor the text of a UUID holds a slash.
pub record IsPlaced (prefix : Text) (env : Env) (p : Party) : Type 0 where
  pub elements : List Text
  pub plain : All IsPlain elements
  pub made : prefix ≡ join_slash elements
  pub starts : Starts is_space prefix
  pub id_ok : NoSlash p.tenant_id
  pub text_ok : (x : Uuid) → NoSlash (env.uuid_text x)

append-cons-ne-nil : (s t : Text) (c : ℕ) → s ++ (c ∷ t) ≢ []
append-cons-ne-nil [] t c = cc
append-cons-ne-nil (d ∷ s) t c = cc

join_slash-concat-ne-nil : (xs : List Text) (x : Text) → x ≢ [] → join_slash (xs ++ x ∷ []) ≢ []
unfolding join_slash
join_slash-concat-ne-nil [] x h = h
join_slash-concat-ne-nil (y ∷ []) x h = append-cons-ne-nil y _ b'/'
join_slash-concat-ne-nil (y ∷ z ∷ xs) x h = append-cons-ne-nil y _ b'/'

Ends-join_slash :
    (xs : List Text) (x : Text)
    → x ≢ []
    → Ends is_space x
    → Ends is_space (join_slash (xs ++ x ∷ []))
unfolding join_slash
Ends-join_slash [] x h k = k
Ends-join_slash (y ∷ []) x h k =
    Ends-append is_space y (b'/' ∷ x) (cc) (Ends-append is_space (b'/' ∷ []) x h k)
Ends-join_slash (y ∷ z ∷ xs) x h k = Ends-append is_space y _ (cc) (
    Ends-append is_space (b'/' ∷ []) (join_slash (z ∷ xs ++ x ∷ []))
      (join_slash-concat-ne-nil (z ∷ xs) x h) (Ends-join_slash (z ∷ xs) x h k))

Starts-append : (s t : Text) → s ≢ [] → Starts is_space s → Starts is_space (s ++ t)
Starts-append [] t h k = absurd (h refl)
Starts-append (c ∷ s) t h k = k

-- The file name that UploadPartyDocument hands on.
abbrev pub named : Text → Text
named name = default_if_empty (sanitize_file_name name) (codes "document.bin")

default-Ends :
    (s d : Text) → Ends is_space s → Ends is_space d → Ends is_space (default_if_empty s d)
default-Ends [] d h k = k
default-Ends (c ∷ s) d h k = h

default-ne-nil : (s d : Text) → d ≢ [] → default_if_empty s d ≢ []
default-ne-nil [] d h = h
default-ne-nil (c ∷ s) d h = cc

bin-Ends : (doc : Text) → Ends is_space (doc ++ codes ".bin")
unfolding is_space
bin-Ends doc = Ends-append is_space doc (codes ".bin") (cc) refl

bin-ne-nil : (doc : Text) → doc ++ codes ".bin" ≢ []
bin-ne-nil doc = append-cons-ne-nil doc (codes "bin") b'.'

document_bin-Ends : Ends is_space (sanitize_file_name (codes "document.bin"))
unfolding starts_with
document_bin-Ends = sanitize_file_name-Ends (codes "document.bin") (omega arith) (
    (
      refl,
      (refl, (refl, (refl, (refl, (refl, (refl, (refl, (refl, (refl, (refl, (refl, tt))))))))))),
    ))

default_of_ne : (s d : Text) → s ≢ [] → default_if_empty s d ≡ s
default_of_ne [] d h = absurd (h refl)
default_of_ne (c ∷ s) d h = refl

resanitized-Ends : (name : Text) → Ends is_space (sanitize_file_name (named name))
resanitized-Ends name = elim (sanitize_file_name-IsSafeName name) [
  | inl e ↦ rw e document_bin-Ends
  | inr safe ↦
      rw (default_of_ne (sanitize_file_name name) _ safe.2)
        (sanitize_file_name-Ends (sanitize_file_name name) safe.0 safe.1)
]

-- The elements of a key end in one that is not empty and ends in no white space.
record EndsWell (parts : List Text) : Type 0 where
  firsts : List Text
  last : Text
  split : parts ≡ firsts ++ last ∷ []
  some_rune : last ≢ []
  ends : Ends is_space last

EndsWell-cons : (x : Text) {parts : List Text} → EndsWell parts → EndsWell (x ∷ parts)
EndsWell-cons x w = record {
  firsts = x ∷ w.firsts;
  last = w.last;
  split = ap (λ l. x ∷ l) w.split;
  some_rune = w.some_rune;
  ends = w.ends;
}

EndsWell-append : (xs : List Text) {parts : List Text} → EndsWell parts → EndsWell (xs ++ parts)
EndsWell-append [] w = w
EndsWell-append (x ∷ xs) w = EndsWell-cons x (EndsWell-append xs w)

EndsWell-dashed : (s t : Text) → t ≢ [] → Ends is_space t → EndsWell (dashed s t ∷ [])
EndsWell-dashed s t h k = record {
  firsts = [];
  last = dashed s t;
  split = refl;
  some_rune = append-cons-ne-nil s t b'-';
  ends = Ends-append is_space s (b'-' ∷ t) (cc) (Ends-append is_space (b'-' ∷ []) t h k);
}

module _ (u : Unicode) (env : Env) (p : Party) (name : Text) where
  key_parts-EndsWell : EndsWell (key_parts u env p (named name))
  unfolding key_parts
  key_parts-EndsWell =
      let doc = slugify_name u p.doc_type (codes "document") in
      let file = sanitize_file_name (named name) in
      EndsWell-append
        (codes "tenants"
          ∷ dashed (slugify_name u p.tenant_name p.tenant_id) p.tenant_id
          ∷ codes "parties"
          ∷ dashed (slugify_name u p.party_name (env.uuid_text p.party_id))
              (env.uuid_text p.party_id)
          ∷ doc
          ∷ sprintf_padded 4 env.year
          ∷ sprintf_padded 2 env.month
          ∷ sprintf_padded 2 env.day
          ∷ [])
        (EndsWell-dashed (env.uuid_text env.unique) (default_if_empty file (doc ++ codes ".bin"))
          (default-ne-nil file (doc ++ codes ".bin") (bin-ne-nil doc))
          (default-Ends file (doc ++ codes ".bin") (resanitized-Ends name) (bin-Ends doc)))

Ends-of_EndsWell : (parts : List Text) → EndsWell parts → Ends is_space (join_slash parts)
Ends-of_EndsWell parts w = rw w.split (Ends-join_slash w.firsts w.last w.some_rune w.ends)

join_slash-head :
    (c : ℕ) (q : Text) (qs : List Text) → (t : Text) × (join_slash ((c ∷ q) ∷ qs) ≡ c ∷ t)
unfolding join_slash
join_slash-head c q [] = (q, refl)
join_slash-head c q (r ∷ qs) = (_, refl)

Starts-join_slash :
    (q : Text) (qs rs : List Text)
    → q ≢ []
    → Starts is_space (join_slash (q ∷ qs))
    → Starts is_space (join_slash (q ∷ rs))
Starts-join_slash [] qs rs h k = absurd (h refl)
Starts-join_slash (c ∷ q) qs rs h k =
    let (t, e) = join_slash-head c q qs in
    let (t', e') = join_slash-head c q rs in
    let k' : Starts is_space (c ∷ t) = rw e at k in rw e' k'

tenants-Starts : Starts is_space (join_slash (codes "tenants" ∷ []))
unfolding join_slash is_space
tenants-Starts = refl

Starts-key_parts :
    (u : Unicode) (env : Env) (p : Party) (file : Text)
    → Starts is_space (join_slash (key_parts u env p file))
unfolding key_parts
Starts-key_parts u env p file = Starts-join_slash (codes "tenants") [] _ (cc) tenants-Starts

key-Starts :
    (u : Unicode) (env : Env) (p : Party) (file : Text) (elements : List Text)
    → All IsPlain elements
    → Starts is_space (join_slash elements)
    → Starts is_space (join_slash (elements ++ key_parts u env p file))
key-Starts u env p file [] _ _ = Starts-key_parts u env p file
key-Starts u env p file (q ∷ qs) h k = Starts-join_slash q qs (qs ++ key_parts u env p file) h.0.1 k

trim_space_of_Ends : (s : Text) → Starts is_space s → Ends is_space s → trim_space s ≡ s
unfolding trim_space
trim_space_of_Ends s h k = trim_func_of_Ends is_space s h k

-- The key under which a document is put is its own trimmed form.
pub trim_space-key :
    (u : Unicode) (env : Env) (p : Party) (prefix name : Text)
    → IsPlaced prefix env p
    → trim_space (build_object_key u env prefix p (named name))
      ≡ build_object_key u env prefix p (named name)
trim_space-key u env p prefix name w =
    let key =
      (build_object_key-join_slash u env w.text_ok w.elements p (named name) w.plain w.id_ok).0 in
    rw (w.made, key)
      (trim_space_of_Ends (join_slash (w.elements ++ key_parts u env p (named name)))
        (key-Starts u env p (named name) w.elements w.plain (rw w.made at w.starts))
        (Ends-of_EndsWell _ (EndsWell-append w.elements (key_parts-EndsWell u env p name))))

pub key-ne-nil :
    (u : Unicode) (env : Env) (p : Party) (prefix name : Text)
    → IsPlaced prefix env p
    → build_object_key u env prefix p (named name) ≢ []
key-ne-nil u env p prefix name w =
    let key =
      (build_object_key-join_slash u env w.text_ok w.elements p (named name) w.plain w.id_ok).0 in
    let e = EndsWell-append w.elements (key_parts-EndsWell u env p name) in
    rw (w.made, key, e.split) (join_slash-concat-ne-nil e.firsts e.last e.some_rune)

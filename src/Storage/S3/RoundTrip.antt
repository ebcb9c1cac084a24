-- ===== src/Storage/S3/RoundTrip.antt =====
-- What is uploaded can be downloaded.
use frego_finance.Prelude.{
  ℕ, ◌≡◌, refl, ap, ◌∙◌, ◌≢◌, ◌⊎◌, inl, inr, false, none, some, List, [], ◌∷◌, map, arith, ◌==◌,
  nat_eq, Text, text_beq, text_beq_iff, text_beq_refl, text_eq, codes, length, Result, ok,
}
use frego_finance.Strings.{
  Unicode, trim_space, trim_func, trim_left, trim_right, is_space, equal_fold, fold_rune,
}
use frego_finance.Strings.Trimming.{trim_space_idem}
use frego_finance.Storage.Types.{
  DocumentPayload, DocumentLocation, DocumentDownload, StorageError, Party,
}
use frego_finance.Storage.Contract.{stored_type}
use frego_finance.Storage.S3.{
  Client, PutObjectInput, S3Uploader, Env, default_if_empty, object_for, upload_party_document,
  download_document, is_other_region, content_type_of,
}
use frego_finance.Storage.S3.KeyEnds.{IsPlaced, trim_space-key, key-ne-nil}

-- What S3 documents: an object that was put is what a later get under its key gives.
pub record IsLawful {S : Type 0} (c : Client S) : Type 0 where
  pub get-put :
      (s : S) (o : PutObjectInput)
      → (c.put_object s o).0 ≡ none
      → c.get_object (c.put_object s o).1 o.bucket o.key
        ≡ ok (record {
          body = ok o.body;
          content_type = some o.content_type;
          content_length = some (length o.body);
        })

octet_trimmed : trim_space (codes "application/octet-stream") ≡ codes "application/octet-stream"
unfolding trim_space trim_func trim_left trim_right is_space
octet_trimmed = refl

default_cases : (s d : Text) → (default_if_empty s d ≡ d) ⊎ ((default_if_empty s d ≡ s) × (s ≢ []))
default_cases [] d = inl refl
default_cases (c ∷ s) d = inr (refl, (cc))

pub content_type_of-stored_type :
    (t : Text) → content_type_of (some (stored_type t)) ≡ stored_type t
content_type_of-stored_type t =
    elim (default_cases (trim_space t) (codes "application/octet-stream")) [
      | inl e ↦ rw (e, octet_trimmed) refl
      | inr (e, h) ↦ rw (e, trim_space_idem t) e
    ]

is_other_region_self : (u : Unicode) (r : Text) → is_other_region u r r ≡ false
unfolding equal_fold
is_other_region_self u r = ground (arith, text_beq_refl (map (fold_rune u) (trim_space r)))

length-ne-zero : (xs : List ℕ) → xs ≢ [] → (length xs == 0) ≡ false
length-ne-zero [] h = absurd (h refl)
length-ne-zero (x ∷ xs) h = ground arith

ne-nil→beq : (s : Text) → s ≢ [] → text_beq s [] ≡ false
ne-nil→beq s h = ground (arith, text_beq_iff s [])

module _ {S : Type 0} (u : Unicode) (up : S3Uploader S) where
  -- A download of an object that the store holds.
  pub download_of_get :
      (s : S) (key bytes t : Text) (n : ℕ)
      → trim_space key ≡ key
      → key ≢ []
      → up.client.get_object s up.bucket key
        ≡ ok (record { body = ok bytes; content_type = some t; content_length = some n })
      → download_document u up up.region key s
        ≡ ok (record { bytes = bytes; content_type = content_type_of (some t); size = n })
  unfolding download_document
  download_of_get s key bytes t n trimmed some_rune get =
      rw (trimmed, ne-nil→beq key some_rune, is_other_region_self u up.region, get) refl

module _ {S : Type 0} (u : Unicode) (env : Env) (up : S3Uploader S) (p : Party)
    (payload : DocumentPayload) (s : S) where
  abbrev object : PutObjectInput
  object = object_for u env up p payload

  abbrev location : DocumentLocation
  location = record { key = object.key; region = up.region }

  uploaded :
      payload.bytes ≢ []
      → (up.client.put_object s object).0 ≡ none
      → upload_party_document u env up p payload s
        ≡ (ok location, (up.client.put_object s object).1)
  unfolding upload_party_document
  uploaded some_byte put = rw (length-ne-zero payload.bytes some_byte, put) refl

-- A document that has at least one byte, put by an upload that the store accepts, is given back
-- by a download under the location that the upload returned: the same bytes, their number as the
-- size, and the media type that was given, trimmed, or the default where it was blank. The store is
-- one whose get gives what was put, and the prefix and the identifiers are such that keys are sound.
pub download-upload :
    {S : Type 0} (u : Unicode) (env : Env) (up : S3Uploader S) (p : Party)
    (payload : DocumentPayload) (s : S)
    → IsLawful up.client
    → IsPlaced up.prefix env p
    → payload.bytes ≢ []
    → (up.client.put_object s (object_for u env up p payload)).0 ≡ none
    → (loc : DocumentLocation) × (s' : S) × (upload_party_document u env up p payload s
        ≡ (ok loc, s'))
      × (download_document u up loc.region loc.key s'
          ≡ ok (record {
            bytes = payload.bytes;
            content_type = stored_type payload.content_type;
            size = length payload.bytes;
          }))
unfolding object_for
download-upload u env up p payload s lawful w some_byte put =
    let o = object_for u env up p payload in
    let t = stored_type payload.content_type in
    let result : Text → Result StorageError DocumentDownload = λ media.
      ok (record { bytes = payload.bytes; content_type = media; size = length payload.bytes }) in
    (
      record { key = o.key; region = up.region },
      (up.client.put_object s o).1,
      uploaded u env up p payload s some_byte put,
      download_of_get u up (up.client.put_object s o).1 o.key payload.bytes t (length payload.bytes)
            (trim_space-key u env p up.prefix payload.file_name w)
            (key-ne-nil u env p up.prefix payload.file_name w) (lawful.get-put s o put)
          ∙ ap result (content_type_of-stored_type payload.content_type),
    )

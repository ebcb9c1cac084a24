-- ===== src/Storage/S3/Archive.antt =====
-- A sequence of uploads: documents that were stored stay what they are while others are stored.
use frego_finance.Prelude.{
  ◌≡◌, sym, ap, ◌∙◌, ◌≢◌, List, [], ◌∷◌, nat_eq, Text, text_eq, length, All, Result, ok, err,
}
use frego_finance.Strings.{Unicode, is_space}
use frego_finance.Strings.Trimming.{Starts}
use frego_finance.Paths.{join_slash}
use frego_finance.Paths.Laws.{IsPlain}
use frego_finance.Storage.Types.{DocumentLocation, StorageError}
use frego_finance.Storage.S3.{S3Uploader, build_object_key, s3_uploader, object_for}
use frego_finance.Storage.Contract.{
  Upload, Stored, kept, fresh_text, IsFresh, upload, upload_all, IsDownloaded, stored_type,
  IsDocumentStore,
}
use frego_finance.Storage.S3.Placement.{build_object_key-unique}
use frego_finance.Storage.S3.KeyEnds.{IsPlaced, named, trim_space-key, key-ne-nil}
use frego_finance.Storage.S3.RoundTrip.{IsLawful, content_type_of-stored_type, download_of_get}
use frego_finance.Storage.S3.Puts.{
  IsSeparate, IsSound, s3_store, key_of, Holds, IsStored, upload-IsStored, upload_all-get,
}

module _ {S : Type 0} (u : Unicode) (up : S3Uploader S) where
  module _ (elements : List Text) (plain : All IsPlain elements)
      (made : up.prefix ≡ join_slash elements) (starts : Starts is_space up.prefix) where
    placed : (x : Upload) → IsSound x → IsPlaced up.prefix x.env x.party
    placed x (id_ok, text_ok) = record {
      elements = elements;
      plain = plain;
      made = made;
      starts = starts;
      id_ok = id_ok;
      text_ok = text_ok;
    }

    key_of-made :
        (x : Upload)
        → key_of u up x
          ≡ build_object_key u x.env (join_slash elements) x.party (named x.payload.file_name)
    unfolding object_for
    key_of-made x =
        ap (λ (q : Text). build_object_key u x.env q x.party (named x.payload.file_name)) made

    key_of-ne :
        (x y : Upload)
        → IsSound x
        → IsSound y
        → length (fresh_text x) ≡ length (fresh_text y)
        → fresh_text x ≢ fresh_text y
        → key_of u up x ≢ key_of u up y
    key_of-ne x y (id_ok, text_ok) (id_ok', text_ok') same differ e = differ (
        build_object_key-unique u x.env y.env elements x.party y.party (named x.payload.file_name)
          (named y.payload.file_name) text_ok text_ok' plain id_ok id_ok' same
          (sym (key_of-made x) ∙ e ∙ key_of-made y))

    later-key_of-ne :
        (x : Upload) (ys : List Upload)
        → IsSound x
        → All IsSound ys
        → All
            (λ (y : Upload).
              (length (fresh_text x) ≡ length (fresh_text y)) × (fresh_text x ≢ fresh_text y))
            ys
        → All (λ (y : Upload). key_of u up x ≢ key_of u up y) ys
    later-key_of-ne x [] h hs d = tt
    later-key_of-ne x (y ∷ ys) h (k, ks) ((same, differ), ds) =
        (key_of-ne x y h k same differ, later-key_of-ne x ys h ks ds)

    held-IsDownloaded :
        (x : Upload) (s : S)
        → IsSound x
        → Holds u up x s
        → IsDownloaded (s3_store u up) s (record {
          location = record { key = key_of u up x; region = up.region };
          payload = x.payload;
        })
    unfolding object_for s3_uploader
    held-IsDownloaded x s h get env =
        let w = placed x h in
        download_of_get u up s (key_of u up x) x.payload.bytes (stored_type x.payload.content_type)
          (length x.payload.bytes) (trim_space-key u x.env x.party up.prefix x.payload.file_name w)
          (key-ne-nil u x.env x.party up.prefix x.payload.file_name w) get
        ∙ ap
            (λ (media : Text). ok (record {
              bytes = x.payload.bytes;
              content_type = media;
              size = length x.payload.bytes;
            }))
            (content_type_of-stored_type x.payload.content_type)

    kept-IsDownloaded :
        (x : Upload) (r : Result StorageError DocumentLocation × S) (later : List Stored) (s : S)
        → IsSound x
        → IsStored u up x r
        → up.client.get_object s up.bucket (key_of u up x)
          ≡ up.client.get_object r.1 up.bucket (key_of u up x)
        → All (IsDownloaded (s3_store u up) s) later
        → All (IsDownloaded (s3_store u up) s) (kept r.0 x.payload later)
    kept-IsDownloaded x (ok location, s') later s h (k, l, get) same hs =
        (rw (k, l) (held-IsDownloaded x s h (same ∙ get)), hs)
    kept-IsDownloaded x (err e, s') later s h st same hs = hs

    downloads :
        IsLawful up.client
        → IsSeparate up.client
        → (xs : List Upload) (s : S) → All IsSound xs
        → IsFresh xs
        → All
            (IsDownloaded (s3_store u up) (upload_all (s3_store u up) xs s).1)
            (upload_all (s3_store u up) xs s).0
    unfolding upload_all
    downloads lawful separate [] s h f = tt
    downloads lawful separate (x ∷ xs) s (h, hs) (d, ds) =
        let r = upload (s3_store u up) x s in
        kept-IsDownloaded x r (upload_all (s3_store u up) xs r.1).0
          (upload_all (s3_store u up) xs r.1).1 h (upload-IsStored u up lawful x s)
          (upload_all-get u up separate xs r.1 (key_of u up x) (later-key_of-ne x xs h hs d))
          (downloads lawful separate xs r.1 hs ds)

-- After any sequence of uploads, each for any tenant, party and file, and whichever of them the store
-- accepts: every document whose upload returned a location is given back by a download under this
-- location (its bytes, their number as the size, and the media type that was given, trimmed, or the
-- default where it was blank), so no later upload has overwritten it; and an object under a key that
-- no upload was for is what it was before. The store gives what was put and keeps objects of other
-- keys, the fresh UUIDs of the uploads differ and have equally long texts, identifiers hold no slash,
-- and the prefix is made of ordinary path elements and begins with no white space.
pub upload_all-download :
    {S : Type 0} (u : Unicode) (up : S3Uploader S) (elements : List Text)
    → All IsPlain elements
    → up.prefix ≡ join_slash elements
    → Starts is_space up.prefix
    → IsLawful up.client
    → IsSeparate up.client
    → (xs : List Upload) (s : S) → All IsSound xs
    → IsFresh xs
    → All
        (IsDownloaded (s3_store u up) (upload_all (s3_store u up) xs s).1)
        (upload_all (s3_store u up) xs s).0
      × ((key : Text)
          → All (λ (x : Upload). key ≢ key_of u up x) xs
          → up.client.get_object (upload_all (s3_store u up) xs s).1 up.bucket key
            ≡ up.client.get_object s up.bucket key)
upload_all-download u up elements plain made starts lawful separate xs s sound fresh = (
  downloads u up elements plain made starts lawful separate xs s sound fresh,
  upload_all-get u up separate xs s,
)

pub s3_store-IsDocumentStore :
    {S : Type 0} (u : Unicode) (up : S3Uploader S) (elements : List Text)
    → All IsPlain elements
    → up.prefix ≡ join_slash elements
    → Starts is_space up.prefix
    → IsLawful up.client
    → IsSeparate up.client
    → IsDocumentStore (s3_store u up) IsSound
s3_store-IsDocumentStore u up elements plain made starts lawful separate = record {
  keeps = λ xs s sound fresh.
      downloads u up elements plain made starts lawful separate xs s sound fresh;
}

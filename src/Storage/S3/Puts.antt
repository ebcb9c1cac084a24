-- ===== src/Storage/S3/Puts.antt =====
-- What uploads put into the store, and what they leave as it was.
use frego_finance.Prelude.{
  ◌≡◌, refl, ◌∙◌, ◌≢◌, inl, inr, Option, none, some, List, [], ◌∷◌, Bool-cases, ◌==◌, nat_eq, Text,
  text_eq, length, All, Result, ok, err,
}
use frego_finance.Strings.{Unicode}
use frego_finance.Paths.Laws.{NoSlash}
use frego_finance.Context.{Uuid}
use frego_finance.Storage.Types.{DocumentUploader}
use frego_finance.Storage.Types.{DocumentLocation, StorageError}
use frego_finance.Storage.S3.{
  Client, PutObjectInput, S3Uploader, Env, s3_uploader, object_for, put_result,
  upload_party_document,
}
use frego_finance.Storage.Contract.{Upload, upload, upload_all, stored_type}
use frego_finance.Storage.S3.RoundTrip.{IsLawful}

-- What S3 documents: a put changes no object under another key.
pub record IsSeparate {S : Type 0} (c : Client S) : Type 0 where
  pub get-put_other :
      (s : S) (o : PutObjectInput) (key : Text)
      → key ≢ o.key
      → c.get_object (c.put_object s o).1 o.bucket key ≡ c.get_object s o.bucket key

-- Neither the tenant's identifier nor the text of a UUID holds a slash.
abbrev pub IsSound : Upload → Type 0
IsSound x = NoSlash x.party.tenant_id × ((y : Uuid) → NoSlash (x.env.uuid_text y))

module _ {S : Type 0} (u : Unicode) (up : S3Uploader S) where
  -- The uploader, at the moment of a call.
  abbrev pub s3_store : Env → DocumentUploader S
  s3_store env = s3_uploader u env up

  abbrev pub key_of : Upload → Text
  key_of x = (object_for u x.env up x.party x.payload).key

  abbrev put_there : Upload → S → Option Text × S
  put_there x s = up.client.put_object s (object_for u x.env up x.party x.payload)

  -- An accepted upload has put the document where its location says.
  abbrev pub Holds : Upload → S → Type 0
  Holds x s =
      up.client.get_object s up.bucket (key_of x)
      ≡ ok (record {
        body = ok x.payload.bytes;
        content_type = some (stored_type x.payload.content_type);
        content_length = some (length x.payload.bytes);
      })

  abbrev pub IsStored : Upload → Result StorageError DocumentLocation × S → Type 0
  IsStored x (ok location, s) =
      (location.key ≡ key_of x) × (location.region ≡ up.region) × Holds x s
  IsStored x (err e, s) = Unit {0}

  put_result-IsStored :
      (x : Upload) (r : Option Text × S)
      → (r.0 ≡ none → Holds x r.1)
      → IsStored x (put_result u x.env (record { key = key_of x; region = up.region }) r)
  put_result-IsStored x (none, s) h = (refl, refl, h refl)
  put_result-IsStored x (some e, s) h = tt

  put_result-state :
      (x : Upload) (location : DocumentLocation) (r : Option Text × S)
      → (put_result u x.env location r).1 ≡ r.1
  put_result-state x location (none, s) = refl
  put_result-state x location (some e, s) = refl

  pub upload-IsStored : IsLawful up.client → (x : Upload) (s : S) → IsStored x (upload s3_store x s)
  unfolding upload_party_document object_for s3_uploader
  upload-IsStored lawful x s = elim (Bool-cases (length x.payload.bytes == 0)) [
    | inl e ↦ rw e tt
    | inr e ↦ rw e (put_result-IsStored x (put_there x s) (lawful.get-put s _))
  ]

  upload-get :
      IsSeparate up.client
      → (x : Upload) (s : S) (key : Text) → key ≢ key_of x
      → up.client.get_object (upload s3_store x s).1 up.bucket key
        ≡ up.client.get_object s up.bucket key
  unfolding upload_party_document object_for s3_uploader
  upload-get separate x s key h = elim (Bool-cases (length x.payload.bytes == 0)) [
    | inl e ↦ rw e refl
    | inr e ↦
        rw (e, put_result-state x (record { key = key_of x; region = up.region }) (put_there x s))
          (separate.get-put_other s _ key h)
  ]

  pub upload_all-get :
      IsSeparate up.client
      → (xs : List Upload) (s : S) (key : Text) → All (λ (x : Upload). key ≢ key_of x) xs
      → up.client.get_object (upload_all s3_store xs s).1 up.bucket key
        ≡ up.client.get_object s up.bucket key
  unfolding upload_all
  upload_all-get separate [] s key h = refl
  upload_all-get separate (x ∷ xs) s key (h, hs) =
      upload_all-get separate xs (upload s3_store x s).1 key hs ∙ upload-get separate x s key h

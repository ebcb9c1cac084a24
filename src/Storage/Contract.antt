-- ===== src/Storage/Contract.antt =====
-- What a DocumentUploader promises to those who keep documents in it, whichever uploader it is.
use frego_finance.Prelude.{
  ◌≡◌, ◌≢◌, List, [], ◌∷◌, nat_eq, Text, text_eq, length, All, Result, ok, err, codes,
}
use frego_finance.Storage.Types.{
  DocumentPayload, DocumentLocation, StorageError, Party, DocumentUploader,
}
use frego_finance.Strings.{trim_space}
use frego_finance.Storage.S3.{Env, default_if_empty}

-- The media type that is stored for a payload.
abbrev pub stored_type : Text → Text
stored_type t = default_if_empty (trim_space t) (codes "application/octet-stream")

-- A call of UploadPartyDocument, with the fresh UUID and the date that it meets.
pub record Upload : Type 0 where
  pub env : Env
  pub party : Party
  pub payload : DocumentPayload

-- What a caller keeps of an upload that was accepted.
pub record Stored : Type 0 where
  pub location : DocumentLocation
  pub payload : DocumentPayload

abbrev pub kept : Result StorageError DocumentLocation → DocumentPayload → List Stored → List Stored
kept (ok location) payload later = record { location = location; payload = payload } ∷ later
kept (err e) payload later = later

-- The text of the fresh UUID of an upload.
abbrev pub fresh_text : Upload → Text
fresh_text x = x.env.uuid_text x.env.unique

-- Fresh UUIDs differ, and their texts are equally long.
abbrev pub IsFresh : List Upload → Type 0
IsFresh [] = Unit {0}
IsFresh (x ∷ xs) =
    All
      (λ (y : Upload).
        (length (fresh_text x) ≡ length (fresh_text y)) × (fresh_text x ≢ fresh_text y))
      xs
    × IsFresh xs

-- A store, at the moment of each of its calls.
module _ {S : Type 0} (store : Env → DocumentUploader S) where
  abbrev pub upload : Upload → S → Result StorageError DocumentLocation × S
  upload x s = (store x.env).upload_party_document x.party x.payload s

  -- The uploads one after the other: what the caller keeps, and the store behind them.
  unfoldable pub upload_all : List Upload → S → List Stored × S
  upload_all [] s = ([], s)
  upload_all (x ∷ xs) s =
      let r = upload x s in let later = upload_all xs r.1 in (kept r.0 x.payload later.0, later.1)

  abbrev pub IsDownloaded : S → Stored → Type 0
  IsDownloaded s d =
      (env : Env)
      → (store env).download_document d.location.region d.location.key s
        ≡ ok (record {
          bytes = d.payload.bytes;
          content_type = stored_type d.payload.content_type;
          size = length d.payload.bytes;
        })

  -- Documents that were stored stay what they are while others are stored, for uploads that fit the
  -- store.
  pub record IsDocumentStore (Fits : Upload → Type 0) : Type 0 where
    pub keeps :
        (xs : List Upload) (s : S)
        → All Fits xs
        → IsFresh xs
        → All (IsDownloaded (upload_all xs s).1) (upload_all xs s).0

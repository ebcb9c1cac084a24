-- ===== src/Storage/Types.antt =====
-- internal/storage/types.go and errors.go, and the errors of the uploaders.
use frego_finance.Prelude.{ℕ, List, nat_eq, Text, text_eq, Result}
use frego_finance.Context.{Uuid}

pub record DocumentPayload : Type 0 where
  pub file_name : Text
  pub content_type : Text
  pub bytes : List ℕ

pub record DocumentLocation : Type 0 where
  pub key : Text
  pub region : Text

pub record DocumentDownload : Type 0 where
  pub bytes : List ℕ
  pub content_type : Text
  pub size : ℕ

pub data StorageError : Type 0 where
  uploader_disabled object_not_found bucket_required region_required : StorageError
  payload_empty key_required : StorageError
  region_mismatch : Text → StorageError
  load_config put_object_failed get_object_failed read_object : Text → StorageError

-- The arguments of UploadPartyDocument that say whose document it is.
pub record Party : Type 0 where
  pub tenant_id : Text
  pub tenant_name : Text
  pub party_id : Uuid
  pub party_name : Text
  pub doc_type : Text

-- DocumentUploader, over the state `S` of the object store.
pub record DocumentUploader (S : Type 0) : Type 0 where
  pub upload_party_document : Party → DocumentPayload → S → Result StorageError DocumentLocation × S
  pub download_document : (region key : Text) → S → Result StorageError DocumentDownload

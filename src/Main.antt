-- ===== src/Main.antt =====
-- How cmd/server/main.go chooses the document store and puts the origins together.
pub mod Laws
pub mod Start
pub mod Life
pub mod Documents
use frego_finance.Prelude.{
  ◌||◌, List, [], ◌∷◌, ◌++◌, if◌then◌else◌, ◌==◌, nat_eq, Text, text_eq, codes, Result, ok, err,
}
use frego_finance.Strings.{Unicode, trim_space}
use frego_finance.Config.{StorageConfig}
use frego_finance.Storage.Types.{DocumentUploader, StorageError}
use frego_finance.Storage.Noop.{new_noop_uploader}
use frego_finance.Storage.S3.{
  Client, S3Config, LoadOptions, S3Uploader, Env, new_s3_uploader, s3_uploader,
}

unfoldable pub s3_config : StorageConfig → S3Config
s3_config cfg = record {
  bucket = cfg.bucket;
  region = cfg.region;
  endpoint = cfg.endpoint;
  access_key_id = cfg.access_key_id;
  secret_access_key = cfg.secret_access_key;
  use_path_style = cfg.use_path_style;
  key_prefix = cfg.key_prefix;
}

module _ {S : Type 0} (u : Unicode) (env : Env) (load : LoadOptions → Result Text (Client S)) where
  abbrev pub started : Result StorageError (S3Uploader S) → Result StorageError (DocumentUploader S)
  started (ok up) = ok (s3_uploader u env up)
  started (err e) = err e

  -- An error ends the process.
  unfoldable pub document_uploader : StorageConfig → Result StorageError (DocumentUploader S)
  unfolding new_noop_uploader s3_config new_s3_uploader s3_uploader
  document_uploader cfg =
      if trim_space cfg.bucket == [] || trim_space cfg.region == []
      then ok new_noop_uploader
      else started (new_s3_uploader load (s3_config cfg))

unfoldable pub cors_origins : List Text → List Text
cors_origins allowed =
    allowed ++ (codes "https://dev.myfrego.com" ∷ codes "http://localhost:3000" ∷ [])

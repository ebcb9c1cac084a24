-- ===== src/Storage/Noop.antt =====
-- internal/storage/noop.go.
use frego_finance.Prelude.{nat_eq, text_eq, err}
use frego_finance.Storage.Types.{uploader_disabled, DocumentUploader}

unfoldable pub new_noop_uploader : {S : Type 0} → DocumentUploader S
new_noop_uploader = record {
  upload_party_document = λ party payload s. (err uploader_disabled, s);
  download_document = λ region key s. err uploader_disabled;
}

-- ===== src/Main/Documents.antt =====
-- What the document store that the process has chosen promises.
use frego_finance.Prelude.{
  ◌≡◌, refl, ◌∙◌, ◌⊎◌, inl, inr, true, false, ◌||◌, List, [], ◌∷◌, Bool-cases, ◌==◌, nat_eq, Text,
  text_eq, All, Result, ok, err,
}
use frego_finance.Strings.{Unicode, trim_space, trim, is_space}
use frego_finance.Strings.Trimming.{Starts}
use frego_finance.Paths.{join_slash}
use frego_finance.Paths.Laws.{IsPlain}
use frego_finance.Config.{StorageConfig}
use frego_finance.Storage.Types.{DocumentUploader, load_config}
use frego_finance.Storage.Contract.{Upload, Stored, upload_all, IsDownloaded, IsDocumentStore}
use frego_finance.Storage.Noop.{new_noop_uploader}
use frego_finance.Storage.S3.{Client, LoadOptions, S3Uploader, Env, load_options}
use frego_finance.Storage.S3.RoundTrip.{IsLawful}
use frego_finance.Storage.S3.Puts.{IsSeparate, IsSound, s3_store}
use frego_finance.Storage.S3.Archive.{s3_store-IsDocumentStore}
use frego_finance.Main.{s3_config, document_uploader}
use frego_finance.Main.Laws.{disabled, document_uploader-filled}

-- The disabled store accepts nothing, so it loses nothing.
noop-kept :
    {S : Type 0} (P : S → Stored → Type 0) (xs : List Upload) (s : S)
    → let r = upload_all {S = S} (λ (env : Env). new_noop_uploader) xs s in All (P r.1) r.0
unfolding upload_all new_noop_uploader
noop-kept P [] s = tt
noop-kept P (x ∷ xs) s = noop-kept P xs s

noop-IsDocumentStore :
    {S : Type 0} (Fits : Upload → Type 0)
    → IsDocumentStore {S = S} (λ (env : Env). new_noop_uploader) Fits
noop-IsDocumentStore Fits = record {
  keeps =
      λ xs s fits fresh. noop-kept (λ s'. IsDownloaded (λ (env : Env). new_noop_uploader) s') xs s;
}

module _ {S : Type 0} (u : Unicode) (load : LoadOptions → Result Text (Client S))
    (cfg : StorageConfig) where
  -- The S3 clients that are made for this configuration do what S3 documents.
  abbrev pub LoadsLawful : Type 0
  LoadsLawful =
      (c : Client S) → load (load_options (s3_config cfg)) ≡ ok c → IsLawful c × IsSeparate c

  -- The key prefix of this configuration is made of ordinary path elements.
  pub record HasPlainPrefix : Type 0 where
    pub elements : List Text
    pub plain : All IsPlain elements
    pub made : trim (trim_space cfg.key_prefix) b'/' ≡ join_slash elements
    pub starts : Starts is_space (trim (trim_space cfg.key_prefix) b'/')

  -- The service does not start, for want of a client.
  abbrev pub IsUnstarted : Type 0
  IsUnstarted = (e : Text) × ((env : Env) → document_uploader u env load cfg ≡ err (load_config e))

  -- The store that the service starts with, at each moment, is one that keeps documents.
  abbrev pub StartsWithStore : Type 0
  StartsWithStore =
      (store : Env → DocumentUploader S) × ((env : Env)
        → document_uploader u env load cfg ≡ ok (store env))
      × IsDocumentStore store IsSound

  filled_cases :
      LoadsLawful
      → HasPlainPrefix
      → (trim_space cfg.bucket == []) ≡ false
      → (trim_space cfg.region == []) ≡ false
      → (res : Result Text (Client S)) → load (load_options (s3_config cfg)) ≡ res
      → IsUnstarted ⊎ StartsWithStore
  filled_cases lawful w b r (err x) e =
      inl (x, λ env. document_uploader-filled u env load cfg b r ∙ rw e)
  filled_cases lawful w b r (ok client) e =
      let up : S3Uploader S = record {
        client = client;
        bucket = cfg.bucket;
        prefix = trim (trim_space cfg.key_prefix) b'/';
        region = cfg.region;
      } in
      inr (
        s3_store u up,
        (λ env. document_uploader-filled u env load cfg b r ∙ rw e),
        s3_store-IsDocumentStore u up w.elements w.plain w.made w.starts (lawful client e).0
            (lawful client e).1,
      )

  unfilled : (trim_space cfg.bucket == [] || trim_space cfg.region == []) ≡ true → StartsWithStore
  unfilled h = (_, (λ env. (disabled u env load cfg h).1), noop-IsDocumentStore IsSound)

-- Whichever store the configuration makes main choose, the disabled one or S3: either it cannot be made,
-- for want of a client, and the service does not start; or after any sequence of uploads into it,
-- every document whose upload returned a location is given back by a download under this location, as it
-- was, whatever was uploaded after it. The clients that are made do what S3 documents, the configured
-- prefix is made of ordinary path elements, the fresh UUIDs of the uploads differ and have equally long
-- texts, and identifiers hold no slash.
pub document_uploader-IsDocumentStore :
    {S : Type 0} (u : Unicode) (load : LoadOptions → Result Text (Client S)) (cfg : StorageConfig)
    → LoadsLawful u load cfg
    → HasPlainPrefix u load cfg
    → IsUnstarted u load cfg ⊎ StartsWithStore u load cfg
document_uploader-IsDocumentStore u load cfg lawful w =
    elim (Bool-cases (trim_space cfg.bucket == [])) [
      | inl b ↦ inr (unfilled u load cfg (rw b))
      | inr b ↦ elim (Bool-cases (trim_space cfg.region == [])) [
        | inl r ↦ inr (unfilled u load cfg (rw (b, r)))
        | inr r ↦ filled_cases u load cfg lawful w b r _ refl
      ]
    ]

-- ===== src/Main/Laws.antt =====
-- The document store of the process.
use frego_finance.Prelude.{
  ◌≡◌, refl, ◌∙◌, ◌⊎◌, inl, inr, true, false, ◌||◌, [], arith, Bool-cases, ◌==◌, nat_eq, Text,
  text_beq_iff, text_eq, Result, ok, err, ◌>>=◌, wrap_err, ◌≢◌,
}
use frego_finance.Strings.{Unicode, trim_space, trim}
use frego_finance.Config.{StorageConfig}
use frego_finance.Storage.Types.{load_config}
use frego_finance.Storage.Noop.{new_noop_uploader}
use frego_finance.Storage.S3.{
  Client, LoadOptions, S3Uploader, Env, new_s3_uploader, s3_uploader, load_options,
}
use frego_finance.Main.{s3_config, started, document_uploader}

abbrev pub IsBlank : Text → Type 0
IsBlank s = trim_space s ≡ []

module _ {S : Type 0} (u : Unicode) (env : Env) (load : LoadOptions → Result Text (Client S))
    (cfg : StorageConfig) where
  -- Without a bucket or a region the store is the one that is disabled.
  abbrev pub IsDisabled : Type 0
  IsDisabled =
      (IsBlank cfg.bucket ⊎ IsBlank cfg.region)
      × (document_uploader u env load cfg ≡ ok new_noop_uploader)

  -- The store is an S3 uploader for the configured bucket, or the client could not be made.
  abbrev pub IsStarted : Type 0
  IsStarted =
      ((up : S3Uploader S) × (load (load_options (s3_config cfg)) ≡ ok up.client)
        × (up.bucket ≡ cfg.bucket)
        × (up.region ≡ cfg.region)
        × (document_uploader u env load cfg ≡ ok (s3_uploader u env up)))
      ⊎ ((e : Text) × (load (load_options (s3_config cfg)) ≡ err e)
          × (document_uploader u env load cfg ≡ err (load_config e)))

  abbrev pub IsConfigured : Type 0
  IsConfigured = (¬ IsBlank cfg.bucket) × (¬ IsBlank cfg.region) × IsStarted

  pub document_uploader-filled :
      (trim_space cfg.bucket == []) ≡ false
      → (trim_space cfg.region == []) ≡ false
      → document_uploader u env load cfg
        ≡ started u env load (do
          client ← wrap_err load_config (load (load_options (s3_config cfg)))
          ok (record {
            client = client;
            bucket = cfg.bucket;
            prefix = trim (trim_space cfg.key_prefix) b'/';
            region = cfg.region;
          }))
  unfolding document_uploader new_s3_uploader s3_config load_options
  document_uploader-filled b r = rw (b, r)

  started_cases :
      (trim_space cfg.bucket == []) ≡ false
      → (trim_space cfg.region == []) ≡ false
      → (res : Result Text (Client S)) → load (load_options (s3_config cfg)) ≡ res
      → IsStarted
  started_cases b r (ok client) e = inl (
    record {
      client = client;
      bucket = cfg.bucket;
      prefix = trim (trim_space cfg.key_prefix) b'/';
      region = cfg.region;
    },
    e,
    refl,
    refl,
    document_uploader-filled b r ∙ rw e,
  )
  started_cases b r (err x) e = inr (x, e, document_uploader-filled b r ∙ rw e)

  pub disabled : (trim_space cfg.bucket == [] || trim_space cfg.region == []) ≡ true → IsDisabled
  unfolding document_uploader
  disabled h = (
    ground
        (arith, text_beq_iff (trim_space cfg.bucket) [], text_beq_iff (trim_space cfg.region) []),
    rw h,
  )

not-blank : (s : Text) → (s == []) ≡ false → s ≢ []
not-blank s e h = ground (arith, text_beq_iff s [])

-- Where the bucket or the region is blank the service starts with the disabled store; where neither
-- is, it starts with an S3 uploader for that bucket and region and the client that was made, or it
-- ends with the error that the client could not be made.
pub document_uploader_cases :
    {S : Type 0}
    → (u : Unicode) (env : Env) (load : LoadOptions → Result Text (Client S)) (cfg : StorageConfig)
    → IsDisabled u env load cfg ⊎ IsConfigured u env load cfg
document_uploader_cases u env load cfg = elim (Bool-cases (trim_space cfg.bucket == [])) [
  | inl b ↦ inl (disabled u env load cfg (rw b))
  | inr b ↦ elim (Bool-cases (trim_space cfg.region == [])) [
    | inl r ↦ inl (disabled u env load cfg (rw (b, r)))
    | inr r ↦ inr (
      not-blank (trim_space cfg.bucket) b,
      not-blank (trim_space cfg.region) r,
      started_cases u env load cfg b r _ refl,
    )
  ]
]

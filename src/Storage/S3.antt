-- ===== src/Storage/S3.antt =====
-- The S3 uploader of internal/storage/s3.go, over the client of the AWS library.
pub mod Keys
pub mod Placement
pub mod KeyEnds
pub mod RoundTrip
pub mod Puts
pub mod Archive
use frego_finance.Prelude.{
  ℕ, Bool, not, ◌&&◌, Option, none, some, List, [], ◌∷◌, ◌++◌, if◌then◌else◌, ◌==◌, nat_eq, Text,
  text_eq, codes, length, Result, ok, err, ◌>>=◌, wrap_err,
}
use frego_finance.Strings.{Unicode, trim_space, trim, equal_fold, sprintf_padded}
use frego_finance.Paths.{path_join}
use frego_finance.Context.{Uuid}
use frego_finance.Storage.Types.{
  DocumentPayload, DocumentLocation, DocumentDownload, StorageError, object_not_found,
  bucket_required, region_required, payload_empty, key_required, region_mismatch, load_config,
  put_object_failed, get_object_failed, read_object, Party, DocumentUploader,
}
use frego_finance.Storage.Slug.{sanitize_file_name, slugify_name}

pub record PutObjectInput : Type 0 where
  pub bucket : Text
  pub key : Text
  pub body : List ℕ
  pub content_type : Text
  pub doc_type : Text

pub data GetError : Type 0 where
  no_such_key : GetError
  other : Text → GetError

pub record GetObjectOutput : Type 0 where
  pub body : Result Text (List ℕ)
  pub content_type : Option Text
  pub content_length : Option ℕ

-- *s3.Client: `none` is a put that succeeded.
pub record Client (S : Type 0) : Type 0 where
  pub put_object : S → PutObjectInput → Option Text × S
  pub get_object : S → (bucket key : Text) → Result GetError GetObjectOutput

pub record S3Config : Type 0 where
  pub bucket : Text
  pub region : Text
  pub endpoint : Text
  pub access_key_id : Text
  pub secret_access_key : Text
  pub use_path_style : Bool
  pub key_prefix : Text

-- What the AWS configuration is asked for; an endpoint and credentials only if they are set.
pub record LoadOptions : Type 0 where
  pub region : Text
  pub endpoint : Option Text
  pub credentials : Option (Text × Text)
  pub use_path_style : Bool

pub record S3Uploader (S : Type 0) : Type 0 where
  pub client : Client S
  pub bucket : Text
  pub prefix : Text
  pub region : Text

unfoldable pub load_options : S3Config → LoadOptions
load_options cfg = record {
  region = cfg.region;
  endpoint = if not (trim_space cfg.endpoint == []) then some (trim_space cfg.endpoint) else none;
  credentials =
      if not (trim_space cfg.access_key_id == []) && not (trim_space cfg.secret_access_key == [])
      then some (cfg.access_key_id, cfg.secret_access_key)
      else none;
  use_path_style = cfg.use_path_style;
}

-- `load` is awsconfig.LoadDefaultConfig followed by s3.NewFromConfig.
unfoldable pub new_s3_uploader :
    {S : Type 0}
    → (LoadOptions → Result Text (Client S))
    → S3Config
    → Result StorageError (S3Uploader S)
unfolding load_options
new_s3_uploader load cfg =
    if trim_space cfg.bucket == []
    then err bucket_required
    else if trim_space cfg.region == []
    then err region_required
    else do
      client ← wrap_err load_config (load (load_options cfg))
      ok (record {
        client = client;
        bucket = cfg.bucket;
        prefix = trim (trim_space cfg.key_prefix) b'/';
        region = cfg.region;
      })

-- What a call takes from outside: the text form of a UUID, a fresh UUID, and the date in UTC.
pub record Env : Type 0 where
  pub uuid_text : Uuid → Text
  pub unique : Uuid
  pub year : ℕ
  pub month : ℕ
  pub day : ℕ

-- fmt.Sprintf("%s-%s", a, b)
abbrev pub dashed : Text → Text → Text
dashed a b = a ++ (b'-' ∷ b)

abbrev pub default_if_empty : Text → Text → Text
default_if_empty [] d = d
default_if_empty (c ∷ s) d = c ∷ s

abbrev pub under_prefix : Text → List Text → List Text
under_prefix [] parts = parts
under_prefix (c ∷ prefix) parts = (c ∷ prefix) ∷ parts

module _ (u : Unicode) (env : Env) where
  -- The elements of an object key below the prefix.
  unfoldable pub key_parts : Party → Text → List Text
  key_parts p file_name =
      let doc_slug = slugify_name u p.doc_type (codes "document") in
      codes "tenants"
      ∷ dashed (slugify_name u p.tenant_name p.tenant_id) p.tenant_id
      ∷ codes "parties"
      ∷ dashed (slugify_name u p.party_name (env.uuid_text p.party_id)) (env.uuid_text p.party_id)
      ∷ doc_slug
      ∷ sprintf_padded 4 env.year
      ∷ sprintf_padded 2 env.month
      ∷ sprintf_padded 2 env.day
      ∷ dashed (env.uuid_text env.unique)
          (default_if_empty (sanitize_file_name file_name) (doc_slug ++ codes ".bin"))
      ∷ []

  unfoldable pub build_object_key : (prefix : Text) → Party → (file_name : Text) → Text
  build_object_key prefix p file_name = path_join (under_prefix prefix (key_parts p file_name))

  -- The object that UploadPartyDocument puts.
  unfoldable pub object_for : {S : Type 0} → S3Uploader S → Party → DocumentPayload → PutObjectInput
  object_for up p payload = record {
    bucket = up.bucket;
    key =
        build_object_key up.prefix p
          (default_if_empty (sanitize_file_name payload.file_name) (codes "document.bin"));
    body = payload.bytes;
    content_type =
        default_if_empty (trim_space payload.content_type) (codes "application/octet-stream");
    doc_type = p.doc_type;
  }

  abbrev pub put_result :
      {S : Type 0} → DocumentLocation → Option Text × S → Result StorageError DocumentLocation × S
  put_result location (none, s) = (ok location, s)
  put_result location (some e, s) = (err (put_object_failed e), s)

  unfoldable pub upload_party_document :
      {S : Type 0}
      → S3Uploader S
      → Party
      → DocumentPayload
      → S
      → Result StorageError DocumentLocation × S
  upload_party_document up p payload s =
      let object = object_for up p payload in
      if length payload.bytes == 0
      then (err payload_empty, s)
      else put_result (record { key = object.key; region = up.region })
          (up.client.put_object s object)

abbrev pub get_failed : GetError → StorageError
get_failed no_such_key = object_not_found
get_failed (other e) = get_object_failed e

abbrev pub content_type_of : Option Text → Text
content_type_of none = codes "application/octet-stream"
content_type_of (some t) = default_if_empty (trim_space t) (codes "application/octet-stream")

abbrev pub size_of : Option ℕ → ℕ
size_of none = 0
size_of (some n) = n

module _ (u : Unicode) where
  -- A region that was given and differs from the configured one but for the case.
  abbrev pub is_other_region : Text → Text → Bool
  is_other_region given configured =
      not (trim_space given == []) && not (equal_fold u (trim_space given) (trim_space configured))

  unfoldable pub download_document :
      {S : Type 0} → S3Uploader S → (region key : Text) → S → Result StorageError DocumentDownload
  download_document up region key s =
      let trimmed = trim_space key in
      if trimmed == []
      then err key_required
      else if is_other_region region up.region
      then err (region_mismatch (trim_space region))
      else do
        output ← wrap_err get_failed (up.client.get_object s up.bucket trimmed)
        bytes ← wrap_err read_object output.body
        ok (record {
          bytes = bytes;
          content_type = content_type_of output.content_type;
          size = size_of output.content_length;
        })

-- The uploader as a DocumentUploader.
unfoldable pub s3_uploader : {S : Type 0} → Unicode → Env → S3Uploader S → DocumentUploader S
s3_uploader u env up = record {
  upload_party_document = λ p payload s. upload_party_document u env up p payload s;
  download_document = λ region key s. download_document u up region key s;
}

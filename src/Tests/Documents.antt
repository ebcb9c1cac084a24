-- ===== src/Tests/Documents.antt =====
-- Examples for documents that are stored one after the other, by internal/storage and the store that
-- cmd/server chooses.
use mathlib.Core.Path.{subst}
use frego_finance.Prelude.{ok-injective}
use frego_finance.Prelude.{
  ◌≡◌, refl, sym, ◌≢◌, arith, text_beq_iff, false, ◌⊎◌, ◌&&◌, none, some, List, [], ◌∷◌,
  if◌then◌else◌, ◌==◌, nat_eq, Text, text_beq, text_beq_refl, text_eq, codes, length, All, Result,
  ok, err,
}
use frego_finance.Strings.{trim, trim_space, trim_func, trim_left, trim_right, is_space}
use frego_finance.Strings.Trimming.{Starts}
use frego_finance.Paths.{join_slash}
use frego_finance.Storage.Types.{DocumentPayload}
use frego_finance.Storage.S3.{
  Client, S3Uploader, Env, PutObjectInput, GetError, GetObjectOutput, no_such_key,
}
use frego_finance.Storage.S3.RoundTrip.{IsLawful}
use frego_finance.Storage.S3.Puts.{IsSeparate, IsSound, key_of}
use frego_finance.Storage.S3.Archive.{upload_all-download}
use frego_finance.Tests.Samples.{ascii, NoSlash-of}
use frego_finance.Storage.S3.{LoadOptions}
use frego_finance.Config.{StorageConfig}
use frego_finance.Main.Documents.{
  LoadsLawful, HasPlainPrefix, IsUnstarted, StartsWithStore, document_uploader-IsDocumentStore,
}
use frego_finance.Storage.Contract.{Upload, IsFresh, upload_all, IsDownloaded}
use frego_finance.Storage.S3.Puts.{s3_store}
use frego_finance.Tests.Storage.{env, party, tenant_ok, elements, elements-IsPlain}

-- A moment at which every UUID has this text.
abbrev env_of : Text → Env
env_of text = record env { uuid_text = λ x. text }

-- A store that keeps its objects in a list, the newest first.
abbrev Memory : Type 0
Memory = List PutObjectInput

abbrev found : Memory → Text → Text → Result GetError GetObjectOutput
found [] bucket key = err no_such_key
found (o ∷ s) bucket key =
    if o.bucket == bucket && o.key == key
    then ok (record {
      body = ok o.body;
      content_type = some o.content_type;
      content_length = some (length o.body);
    })
    else found s bucket key

abbrev memory : Client Memory
memory = record { put_object = λ s o. (none, o ∷ s); get_object = found }

memory-IsLawful : IsLawful memory
memory-IsLawful = record {
  get-put = λ s o e. rw (text_beq_refl o.bucket, text_beq_refl o.key) refl;
}

abbrev uploader : S3Uploader Memory
uploader = record {
  client = memory;
  bucket = codes "docs";
  prefix = codes "finance";
  region = codes "eu-west-1";
}

abbrev payload : DocumentPayload
payload = record {
  file_name = codes "a.pdf";
  content_type = codes " application/pdf";
  bytes = 37 ∷ 80 ∷ [];
}

text_ne : (s t : Text) → t ≢ s → text_beq s t ≡ false
text_ne s t h = let k : s ≢ t = λ e. h (sym e) in ground (arith, text_beq_iff s t)

memory-IsSeparate : IsSeparate memory
memory-IsSeparate = record {
  get-put_other = λ s o key h. rw (text_beq_refl o.bucket, text_ne o.key key h) refl;
}

-- Two documents of one name and one day, and one without bytes between them.
abbrev uploads : List Upload
uploads =
    record { env = env_of (codes "u1"); party = party; payload = payload }
    ∷ record { env = env_of (codes "u2"); party = party; payload = record payload { bytes = [] } }
    ∷ record {
      env = env_of (codes "u3");
      party = party;
      payload = record payload { bytes = 37 ∷ [] };
    }
    ∷ []

uploads-IsSound : All IsSound uploads
uploads-IsSound = (
  (tenant_ok, λ y. NoSlash-of (codes "u1") refl),
  (
    (tenant_ok, λ y. NoSlash-of (codes "u2") refl),
    ((tenant_ok, λ y. NoSlash-of (codes "u3") refl), tt),
  ),
)

text_apart : (s t : Text) → text_beq s t ≡ false → s ≢ t
text_apart s t h e = absurd (ground (arith, text_beq_iff s t))

uploads-IsFresh : IsFresh uploads
unfolding text_beq
uploads-IsFresh = (
  (
    (refl, text_apart (codes "u1") (codes "u2") refl),
    ((refl, text_apart (codes "u1") (codes "u3") refl), tt),
  ),
  (((refl, text_apart (codes "u2") (codes "u3") refl), tt), (tt, tt)),
)

prefix-Starts : Starts is_space uploader.prefix
unfolding is_space
prefix-Starts = refl

prefix_made : uploader.prefix ≡ join_slash elements
unfolding join_slash
prefix_made = refl

upload_all-download_example :
    All
      (IsDownloaded (s3_store ascii uploader) (upload_all (s3_store ascii uploader) uploads []).1)
      (upload_all (s3_store ascii uploader) uploads []).0
    × ((key : Text)
        → All (λ (x : Upload). key ≢ key_of ascii uploader x) uploads
        → found (upload_all (s3_store ascii uploader) uploads []).1 (codes "docs") key
          ≡ found [] (codes "docs") key)
upload_all-download_example =
    upload_all-download ascii uploader elements elements-IsPlain prefix_made prefix-Starts
      memory-IsLawful memory-IsSeparate uploads [] uploads-IsSound uploads-IsFresh

-- A configuration whose prefix is written with slashes and spaces around it.
abbrev config : StorageConfig
config = record {
  bucket = codes "docs";
  region = codes "eu-west-1";
  endpoint = [];
  access_key_id = [];
  secret_access_key = [];
  use_path_style = false;
  key_prefix = codes " /finance/ ";
  max_upload_size = 0;
}

abbrev load : LoadOptions → Result Text (Client Memory)
load options = ok memory

load-LoadsLawful : LoadsLawful ascii load config
load-LoadsLawful c e =
    let h : memory ≡ c = ok-injective e in
    subst (λ (x : Client Memory). IsLawful x × IsSeparate x) h (memory-IsLawful, memory-IsSeparate)

config-HasPlainPrefix : HasPlainPrefix ascii load config
unfolding trim trim_space trim_func trim_left trim_right is_space join_slash
config-HasPlainPrefix = record {
  elements = elements;
  plain = elements-IsPlain;
  made = refl;
  starts = refl;
}

document_uploader-IsDocumentStore_example :
    IsUnstarted ascii load config ⊎ StartsWithStore ascii load config
document_uploader-IsDocumentStore_example =
    document_uploader-IsDocumentStore ascii load config load-LoadsLawful config-HasPlainPrefix

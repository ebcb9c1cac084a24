-- ===== src/Tests/Storage.antt =====
-- Examples for package internal/storage.
use frego_finance.Prelude.{
  ◌≡◌, refl, ◌⊎◌, List, [], ◌∷◌, ◌++◌, nat_eq, Text, text_beq, text_eq, codes, All,
}
use frego_finance.Strings.{
  push_first, to_lower, trim, trim_space, trim_func, trim_left, trim_right, is_space, replace_all,
  replace_from, starts_with, is_letter, is_digit, lower_rune,
}
use frego_finance.Paths.{join_slash, base}
use frego_finance.Paths.Laws.{NoSlash, IsPlain}
use frego_finance.Context.{Uuid}
use frego_finance.Storage.Types.{Party}
use frego_finance.Storage.Slug.{
  slug_loop, slug_step, write_dash, checked_name, sanitize_file_name, sanitize_path_token,
  slugify_name, slug_of,
}
use frego_finance.Storage.Slug.Joining.{join_dash}
use frego_finance.Storage.Slug.Words.{slug_of-words, words_from}
use frego_finance.Storage.Slug.Safe.{IsSafeName, sanitize_file_name-IsSafeName}
use frego_finance.Storage.S3.{Env, build_object_key, key_parts}
use frego_finance.Storage.S3.Placement.{build_object_key-join_slash, build_object_key-tenant_id}
use frego_finance.Tests.Samples.{ascii, NoSlash-of}

sanitize_file_name-IsSafeName_example :
    (sanitize_file_name (codes "../etc/pass..wd ") ≡ [])
    ⊎ IsSafeName (sanitize_file_name (codes "../etc/pass..wd "))
sanitize_file_name-IsSafeName_example = sanitize_file_name-IsSafeName (codes "../etc/pass..wd ")

slug_of-words_example :
    slug_of ascii (codes "--Acme  Co_Ltd.")
    ≡ join_dash (words_from ascii [] (to_lower ascii (codes "--Acme  Co_Ltd.")))
slug_of-words_example = slug_of-words ascii (codes "--Acme  Co_Ltd.")

abbrev pub env : Env
env = record { uuid_text = λ x. codes "u1"; unique = codes "x"; year = 2024; month = 3; day = 9 }

abbrev pub party : Party
party = record {
  tenant_id = codes "t1";
  tenant_name = codes "Acme / Co";
  party_id = codes "p";
  party_name = codes "..";
  doc_type = codes "Invoice";
}

abbrev later : Env
later = record env { day = 10 }

text_ok : (x : Uuid) → NoSlash (env.uuid_text x)
unfolding text_beq
text_ok x = NoSlash-of (codes "u1") refl

later_ok : (x : Uuid) → NoSlash (later.uuid_text x)
later_ok x = NoSlash-of (codes "u1") refl

pub tenant_ok : NoSlash party.tenant_id
tenant_ok = NoSlash-of (codes "t1") refl

abbrev pub elements : List Text
elements = codes "finance" ∷ []

pub elements-IsPlain : All IsPlain elements
elements-IsPlain = ((NoSlash-of (codes "finance") refl, (λ e. cc), (λ e. cc), (λ e. cc)), tt)

build_object_key-join_slash_example :
    (build_object_key ascii env (join_slash elements) party (codes "a.pdf")
      ≡ join_slash (elements ++ key_parts ascii env party (codes "a.pdf")))
    × All IsPlain (elements ++ key_parts ascii env party (codes "a.pdf"))
build_object_key-join_slash_example =
    build_object_key-join_slash ascii env text_ok elements party (codes "a.pdf") elements-IsPlain
      tenant_ok

-- The same tenant's name and file, written in another way.
abbrev party_again : Party
party_again = record party { tenant_name = codes " ACME_co" }

key_again :
    build_object_key ascii env (join_slash elements) party (codes "a.pdf")
    ≡ build_object_key ascii env (join_slash elements) party_again (codes "tmp/a.pdf")
unfolding build_object_key key_parts slugify_name slug_of slug_loop slug_step write_dash trim_space
    trim_func trim_left trim_right trim is_space is_letter is_digit to_lower lower_rune text_beq
    sanitize_file_name sanitize_path_token checked_name replace_all replace_from starts_with base
    push_first
key_again = refl

build_object_key-tenant_id_example : party.tenant_id ≡ party_again.tenant_id
build_object_key-tenant_id_example =
    build_object_key-tenant_id ascii env env elements party party_again (codes "a.pdf")
      (codes "tmp/a.pdf") text_ok text_ok elements-IsPlain tenant_ok tenant_ok refl key_again

-- ===== src/Storage/Slug.antt =====
-- sanitizePathToken, sanitizeFileName and slugifyName of internal/storage/s3.go.
pub mod Joining
pub mod Words
pub mod Safe
pub mod Names
use frego_finance.Prelude.{
  ℕ, Bool, true, false, not, ◌&&◌, ◌||◌, [], ◌∷◌, ◌++◌, if◌then◌else◌, ◌==◌, nat_eq, Text, text_eq,
  codes,
}
use frego_finance.Strings.{Unicode, is_letter, is_digit, to_lower, trim_space, trim, replace_all}
use frego_finance.Paths.{base, dot, slash}

unfoldable pub sanitize_path_token : Text → Text
sanitize_path_token value =
    let clean =
      replace_all (replace_all (replace_all (trim_space value) (codes "..") []) (codes "/") [])
        (codes "\\") [] in
    if clean == [] then codes "unknown" else clean

-- The last test of sanitizeFileName.
unfoldable pub checked_name : Text → Text
checked_name clean = if clean == dot || clean == slash || clean == [] then [] else clean

unfoldable pub sanitize_file_name : Text → Text
sanitize_file_name name = checked_name (replace_all (base (trim_space name)) (codes "..") [])

-- The variables of the loop of slugifyName.
pub record Builder : Type 0 where
  pub out : Text
  pub last_dash : Bool

-- r == ' ' || r == '-' || r == '_' || r == '.'
abbrev pub is_separator : ℕ → Bool
is_separator c = c == b' ' || c == b'-' || c == b'_' || c == b'.'

-- One separator: a dash is written unless one was just written or nothing was written yet.
unfoldable pub write_dash : Builder → Builder
write_dash b =
    if not b.last_dash && not (b.out == [])
    then record { out = b.out ++ b'-' ∷ []; last_dash = true }
    else b

module _ (u : Unicode) where
  abbrev pub is_kept : ℕ → Bool
  is_kept c = is_letter u c || is_digit u c

  unfoldable pub slug_step : Builder → ℕ → Builder
  unfolding write_dash
  slug_step b c =
      if is_kept c
      then record { out = b.out ++ c ∷ []; last_dash = false }
      else if is_separator c
      then write_dash b
      else b

  unfoldable pub slug_loop : Builder → Text → Builder
  slug_loop b [] = b
  slug_loop b (c ∷ s) = slug_loop (slug_step b c) s

  -- The slug of an input, before the fallbacks: the dashes at its ends are cut off.
  unfoldable pub slug_of : Text → Text
  unfolding slug_loop to_lower trim
  slug_of input =
      trim (slug_loop (record { out = []; last_dash = false }) (to_lower u input)).out b'-'

  unfoldable pub slugify_name : Text → Text → Text
  slugify_name value fallback =
      let trimmed = trim_space value in
      let slug = slug_of (if trimmed == [] then fallback else trimmed) in
      let safe = if slug == [] then sanitize_path_token fallback else slug in
      if safe == [] then codes "tenant" else safe

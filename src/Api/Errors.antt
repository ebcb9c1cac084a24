-- ===== src/Api/Errors.antt =====
-- The parameter errors of internal/api/finance.gen.go, and their texts. An error inside is its text.
use frego_finance.Prelude.{ℕ, Option, none, some, ◌++◌, nat_eq, Text, text_eq, codes}
use frego_finance.Strings.{sprintf_padded}

pub data ParamError : Type 0 where
  unescaped_cookie unmarshaling required_header invalid_format : (name inner : Text) → ParamError
  required_param : (name : Text) → ParamError
  too_many_values : (name : Text) (count : ℕ) → ParamError

-- Error
unfoldable pub error_text : ParamError → Text
unfolding sprintf_padded
error_text (unescaped_cookie name inner) =
    codes "error unescaping cookie parameter '" ++ (name ++ codes "'")
error_text (unmarshaling name inner) =
    codes "Error unmarshaling parameter " ++ (name ++ (codes " as JSON: " ++ inner))
error_text (required_param name) =
    codes "Query argument " ++ (name ++ codes " is required, but not found")
error_text (required_header name inner) =
    codes "Header parameter " ++ (name ++ codes " is required, but not found")
error_text (invalid_format name inner) =
    codes "Invalid format for parameter " ++ (name ++ (codes ": " ++ inner))
error_text (too_many_values name count) =
    codes "Expected one value for " ++ (name ++ (codes ", got " ++ sprintf_padded 0 count))

-- Unwrap
unfoldable pub unwrap : ParamError → Option Text
unwrap (unescaped_cookie name inner) = some inner
unwrap (unmarshaling name inner) = some inner
unwrap (required_header name inner) = some inner
unwrap (invalid_format name inner) = some inner
unwrap (required_param name) = none
unwrap (too_many_values name count) = none

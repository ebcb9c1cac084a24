-- ===== src/Common/Convert.antt =====
-- The conversions of internal/common/utils.go between pointers and the structs of pgx's pgtype,
-- which hold a value and a flag whether it is valid. An int32 is its bit pattern; an instant is of
-- a type of its own, as are the library's numeric and a float64.
pub mod Laws
use frego_finance.Prelude.{
  ℕ, Bool, true, false, not, Option, none, some, [], ◌∷◌, if◌then◌else◌, ◌==◌, nat_eq, Text,
  text_eq, Result, ok, err,
}
use frego_finance.Strings.{trim_space}
use frego_finance.Context.{Uuid}

-- pgtype.Text, Bool, Int4, UUID, Date and Timestamptz
pub record PgValue {ℓ} (A : Type ℓ) : Type ℓ where
  pub content : A
  pub valid : Bool

-- A pointer to a copy of the value, nil if it is not valid.
abbrev pub ptr_of {ℓ} : {A : Type ℓ} → PgValue A → Option A
ptr_of v = if not v.valid then none else some v.content

abbrev pub value_or {ℓ} : {A : Type ℓ} → A → PgValue A → A
value_or zero_value v = if not v.valid then zero_value else v.content

-- A valid value, or for nil the zero value that is not valid.
abbrev pub pg_of {ℓ} : {A : Type ℓ} → A → Option A → PgValue A
pg_of zero_value none = record { content = zero_value; valid = false }
pg_of zero_value (some x) = record { content = x; valid = true }

unfoldable pub trim_string : Text → Option Text
unfolding trim_space
trim_string s = let trimmed = trim_space s in if trimmed == [] then none else some trimmed

unfoldable pub trim_string_ptr : Option Text → Option Text
trim_string_ptr none = none
trim_string_ptr (some s) = trim_string s

unfoldable pub text_value : PgValue Text → Text
text_value t = value_or [] t

unfoldable pub text_ptr : PgValue Text → Option Text
text_ptr t = ptr_of t

unfoldable pub text_value_ptr : PgValue Text → Option Text
text_value_ptr t = ptr_of t

unfoldable pub bool_value : PgValue Bool → Bool
bool_value b = value_or false b

unfoldable pub string_to_pgtype_text : Option Text → PgValue Text
string_to_pgtype_text s = pg_of [] s

unfoldable pub uuid_ptr : PgValue Uuid → Option Uuid
uuid_ptr u = ptr_of u

-- Sixteen zero bytes stand for the id that is not valid.
unfoldable pub uuid_to_pgtype : Option Uuid → PgValue Uuid
uuid_to_pgtype u = pg_of (0 ∷ 0 ∷ 0 ∷ 0 ∷ 0 ∷ 0 ∷ 0 ∷ 0 ∷ 0 ∷ 0 ∷ 0 ∷ 0 ∷ 0 ∷ 0 ∷ 0 ∷ 0 ∷ []) u

unfoldable pub bool_to_pgtype : Bool → PgValue Bool
bool_to_pgtype b = record { content = b; valid = true }

unfoldable pub bool_ptr : PgValue Bool → Option Bool
bool_ptr b = ptr_of b

unfoldable pub int4_ptr : PgValue ℕ → Option ℕ
int4_ptr i = ptr_of i

unfoldable pub int4_value : PgValue ℕ → ℕ
int4_value i = value_or 0 i

unfoldable pub int32_to_pgtype : Option ℕ → PgValue ℕ
int32_to_pgtype i = pg_of 0 i

unfoldable pub pgtype_text_to_string : PgValue Text → Text
pgtype_text_to_string t = value_or [] t

unfoldable pub pgtype_text_to_string_ptr : PgValue Text → Option Text
pgtype_text_to_string_ptr t = ptr_of t

-- time.Time: its zero value and its UTC method.
pub record Clock (T : Type 0) : Type 0 where
  pub zero_time : T
  pub utc : T → T

module _ {T : Type 0} where
  unfoldable pub time_ptr : PgValue T → Option T
  time_ptr t = ptr_of t

  unfoldable pub date_ptr : PgValue T → Option T
  date_ptr d = ptr_of d

  unfoldable pub date_to_pgtype : Clock T → Option T → PgValue T
  date_to_pgtype clock none = record { content = clock.zero_time; valid = false }
  date_to_pgtype clock (some t) = record { content = clock.utc t; valid = true }

  unfoldable pub time_to_pgtype : Clock T → Option T → PgValue T
  time_to_pgtype clock none = record { content = clock.zero_time; valid = false }
  time_to_pgtype clock (some t) = record { content = clock.utc t; valid = true }

-- pgtype.Numeric and float64: Float64Value and Scan of the library, and strconv.FormatFloat.
pub record Numerics (N F : Type 0) : Type 0 where
  pub valid : N → Bool
  pub null : N
  pub float64_value : N → Result Text (PgValue F)
  pub format_float : F → Text
  pub scan : Text → Result Text N

module _ {N F : Type 0} (lib : Numerics N F) where
  abbrev float_of : Result Text (PgValue F) → Option F
  float_of (err e) = none
  float_of (ok v) = ptr_of v

  unfoldable pub numeric_ptr : N → Option F
  numeric_ptr n = if not (lib.valid n) then none else float_of (lib.float64_value n)

  abbrev scanned : Result Text N → N
  scanned (err e) = lib.null
  scanned (ok n) = n

  unfoldable pub float64_to_numeric : Option F → N
  float64_to_numeric none = lib.null
  float64_to_numeric (some x) = scanned (lib.scan (lib.format_float x))

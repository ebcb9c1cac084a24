-- ===== src/Dto/Members.antt =====
-- Looking up the members of an encoded struct of internal/dto by the names of its JSON tags, and
-- reading what is found there.
use frego_finance.Prelude.{
  ℕ, zero, suc, ◌≡◌, refl, sym, ap, ◌∙◌, Bool, true, false, not, ◌&&◌, Option, none, some, List, [],
  ◌∷◌, arith, if◌then◌else◌, Bool-cases, ◌==◌, Text, text_beq, text_beq_iff, text_eq, contains, map,
  inl, inr, All,
}
use frego_finance.Context.{Uuid}
use frego_finance.Context.Claims.{Entries, end, entry}
use frego_finance.Dto.Wire.{
  Wire, text, number, instant, flag, uuid, entries, array, objects, unless_no_objects, unless_end,
  Members, no_members, member, Objects, no_objects, next_object, Field, with_field, encode, wire_of,
}

unfoldable pub member_at : Text → Members → Option Wire
member_at name no_members = none
member_at name (member k v rest) = if k == name then some v else member_at name rest

abbrev pub names : List Field → List Text
names fields = map (λ (f : Field). f.0) fields

unfoldable pub are_distinct : List Text → Bool
unfolding contains
are_distinct [] = true
are_distinct (n ∷ ns) = not (contains ns n) && are_distinct ns

member_at-absent :
    (name : Text) (fields : List Field)
    → contains (names fields) name ≡ false
    → member_at name (encode fields) ≡ none
unfolding member_at encode contains
member_at-absent name [] h = refl
member_at-absent name ((k, none) ∷ fields) h = ground (arith, member_at-absent name fields)
member_at-absent name ((k, some v) ∷ fields) h = ground (arith, member_at-absent name fields)

-- A field of the object that stands first has its own value, if no other has its name.
member_at-first :
    (name : Text) (v : Option Wire) (fields : List Field)
    → contains (names fields) name ≡ false
    → member_at name (with_field name v (encode fields)) ≡ v
unfolding member_at
member_at-first name none fields h = member_at-absent name fields h
member_at-first name (some v) fields h = ground (arith, text_beq_iff name name)

text_beq_sym : (s t : Text) → text_beq s t ≡ text_beq t s
text_beq_sym s t = elim (Bool-cases (text_beq s t)) [
  | inl e ↦ e ∙ sym ((text_beq_iff t s).1 (sym ((text_beq_iff s t).0 e)))
  | inr e ↦ elim (Bool-cases (text_beq t s)) [
    | inl k ↦ absurd (ground (arith, (text_beq_iff s t).1 (sym ((text_beq_iff t s).0 k))))
    | inr k ↦ e ∙ sym k
  ]
]

after_first :
    (name : Text) (v : Option Wire) (fields rest : List Field)
    → contains (names rest) name ≡ false
    → All (λ (f : Field). member_at f.0 (encode fields) ≡ f.1) rest
    → All (λ (f : Field). member_at f.0 (with_field name v (encode fields)) ≡ f.1) rest
unfolding member_at contains
after_first name none fields rest h all = all
after_first name (some v) fields [] h all = all
after_first name (some v) fields (f ∷ rest) h (here, later) = (
  ground (arith, text_beq_sym name f.0, here),
  after_first name (some v) fields rest (ground arith) later,
)

-- If no two fields have the same name, each has its value under its name in the encoded object.
pub member_at-encode :
    (fields : List Field)
    → are_distinct (names fields) ≡ true
    → All (λ (f : Field). member_at f.0 (encode fields) ≡ f.1) fields
unfolding are_distinct encode
member_at-encode [] h = tt
member_at-encode ((name, v) ∷ fields) h = (
  member_at-first name v fields (ground arith),
  after_first name v fields fields (ground arith) (member_at-encode fields (ground arith)),
)

-- Under its name the n-th field has its value.
abbrev pub IsFound : Members → List Field → ℕ → Type 0
IsFound m [] n = Unit {0}
IsFound m (f ∷ fields) zero = member_at f.0 m ≡ f.1
IsFound m (f ∷ fields) (suc n) = IsFound m fields n

all-IsFound :
    (m : Members) (fields : List Field) (n : ℕ)
    → All (λ (f : Field). member_at f.0 m ≡ f.1) fields
    → IsFound m fields n
all-IsFound m [] n all = tt
all-IsFound m (f ∷ fields) zero (here, later) = here
all-IsFound m (f ∷ fields) (suc n) (here, later) = all-IsFound m fields n later

pub encode-IsFound :
    (fields : List Field)
    → are_distinct (names fields) ≡ true
    → (n : ℕ) → IsFound (encode fields) fields n
encode-IsFound fields h n = all-IsFound (encode fields) fields n (member_at-encode fields h)

-- What is found is read as a value of one kind, none if it is missing or of another kind.
abbrev pub text_in : Option Wire → Option Text
text_in (some (text v)) = some v
text_in _ = none

abbrev pub number_in : Option Wire → Option ℕ
number_in (some (number v)) = some v
number_in _ = none

abbrev pub instant_in : Option Wire → Option ℕ
instant_in (some (instant v)) = some v
instant_in _ = none

abbrev pub uuid_in : Option Wire → Option Uuid
uuid_in (some (uuid v)) = some v
uuid_in _ = none

abbrev pub flag_in : Option Wire → Option Bool
flag_in (some (flag v)) = some v
flag_in _ = none

abbrev pub array_in : Option Wire → Option Objects
array_in (some (array v)) = some v
array_in _ = none

abbrev pub entries_in : Option Wire → Option Entries
entries_in (some (entries v)) = some v
entries_in _ = none

abbrev pub or_else : {A : Type 0} → A → Option A → A
or_else a none = a
or_else a (some b) = b

pub read_text : {w : Option Wire} (v : Option Text) → w ≡ wire_of text v → text_in w ≡ v
read_text none e = ap text_in e
read_text (some v) e = ap text_in e

pub read_number : {w : Option Wire} (v : Option ℕ) → w ≡ wire_of number v → number_in w ≡ v
read_number none e = ap number_in e
read_number (some v) e = ap number_in e

pub read_instant : {w : Option Wire} (v : Option ℕ) → w ≡ wire_of instant v → instant_in w ≡ v
read_instant none e = ap instant_in e
read_instant (some v) e = ap instant_in e

pub read_uuid : {w : Option Wire} (v : Option Uuid) → w ≡ wire_of uuid v → uuid_in w ≡ v
read_uuid none e = ap uuid_in e
read_uuid (some v) e = ap uuid_in e

pub read_flag : {w : Option Wire} (v : Option Bool) → w ≡ wire_of flag v → flag_in w ≡ v
read_flag none e = ap flag_in e
read_flag (some v) e = ap flag_in e

abbrev pub read_all : {A : Type 0} → (Members → A) → Objects → List A
read_all read no_objects = []
read_all read (next_object o os) = read o ∷ read_all read os

-- Lists of structs that are read back one by one.
module _ {A : Type 0} (read : Members → A) (fields : A → List Field)
    (back : (x : A) → read (encode (fields x)) ≡ x) where
  read_all-objects : (xs : List A) → read_all read (objects fields xs) ≡ xs
  unfolding objects
  read_all-objects [] = refl
  read_all-objects (x ∷ xs) = λ i. back x i ∷ read_all-objects xs i

  pub read_array :
      {w : Option Wire} (xs : List A)
      → w ≡ some (array (objects fields xs))
      → read_all read (or_else no_objects (array_in w)) ≡ xs
  read_array xs e =
      ap (λ w. read_all read (or_else no_objects (array_in w))) e ∙ read_all-objects xs

  array_in-unless_no_objects :
      (os : Objects) → or_else no_objects (array_in (unless_no_objects os)) ≡ os
  array_in-unless_no_objects no_objects = refl
  array_in-unless_no_objects (next_object o os) = refl

  pub read_some_array :
      {w : Option Wire} (xs : List A)
      → w ≡ unless_no_objects (objects fields xs)
      → read_all read (or_else no_objects (array_in w)) ≡ xs
  read_some_array xs e =
      ap (λ w. read_all read (or_else no_objects (array_in w))) e
      ∙ ap (read_all read) (array_in-unless_no_objects (objects fields xs))
      ∙ read_all-objects xs

entries_in-unless_end : (es : Entries) → or_else end (entries_in (unless_end es)) ≡ es
entries_in-unless_end end = refl
entries_in-unless_end (entry k v es) = refl

pub read_entries :
    {w : Option Wire} (es : Entries) → w ≡ unless_end es → or_else end (entries_in w) ≡ es
read_entries es e = ap (λ w. or_else end (entries_in w)) e ∙ entries_in-unless_end es

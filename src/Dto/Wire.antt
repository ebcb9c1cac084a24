-- ===== src/Dto/Wire.antt =====
-- What the JSON tags of internal/dto make of a struct: its members with their names, of which an
-- omitted one is left out. A float64 and an int are bit patterns, an instant is the nanoseconds since
-- the zero value of time.Time. A slice is not nil.
use frego_finance.Prelude.{ℕ, Bool, Option, none, some, List, [], ◌∷◌, Text, text_eq}
use frego_finance.Context.{Uuid}
use frego_finance.Context.Claims.{Entries, end, entry}

mutual
  pub data Wire : Type 0 where
    text : Text → Wire
    number instant : ℕ → Wire
    flag : Bool → Wire
    uuid : Uuid → Wire
    entries : Entries → Wire
    array : Objects → Wire

  pub data Objects : Type 0 where
    no_objects : Objects
    next_object : Members → Objects → Objects

  -- An encoded object.
  pub data Members : Type 0 where
    no_members : Members
    member : Text → Wire → Members → Members

-- A field by its name, none if it is omitted.
abbrev pub Field : Type 0
Field = Text × Option Wire

abbrev pub with_field : Text → Option Wire → Members → Members
with_field name none rest = rest
with_field name (some v) rest = member name v rest

unfoldable pub encode : List Field → Members
encode [] = no_members
encode ((name, v) ∷ fields) = with_field name v (encode fields)

abbrev pub wire_of : {A : Type 0} → (A → Wire) → Option A → Option Wire
wire_of f none = none
wire_of f (some a) = some (f a)

-- A field that is a pointer with "omitempty".
abbrev pub optional : {A : Type 0} → Text → (A → Wire) → Option A → Field
optional name f v = (name, wire_of f v)

abbrev pub always : Text → Wire → Field
always name v = (name, some v)

abbrev pub unless_end : Entries → Option Wire
unless_end end = none
unless_end (entry k v rest) = some (entries (entry k v rest))

unfoldable pub objects : {A : Type 0} → (A → List Field) → List A → Objects
unfolding encode
objects f [] = no_objects
objects f (a ∷ rest) = next_object (encode (f a)) (objects f rest)

abbrev pub unless_no_objects : Objects → Option Wire
unless_no_objects no_objects = none
unless_no_objects (next_object o os) = some (array (next_object o os))

-- ===== src/Context/Claims.antt =====
-- The dynamic values (any) that a token's claims decode to.
use frego_finance.Prelude.{
  Bool, List, [], ◌∷◌, Option, none, some, Text, ◌==◌, text_eq, if◌then◌else◌,
}

mutual
  pub data Value : Type 0 where
    null : Value
    boolean : Bool → Value
    number : Text → Value
    text : Text → Value
    texts : List Text → Value
    stringer : Text → Value
    array : Items → Value
    object : Entries → Value

  pub data Items : Type 0 where
    nil : Items
    cons : Value → Items → Items

  -- map[string]any
  pub data Entries : Type 0 where
    end : Entries
    entry : Text → Value → Entries → Entries

unfoldable pub lookup : Text → Entries → Option Value
lookup key end = none
lookup key (entry k v rest) = if k == key then some v else lookup key rest

-- The values of a map, each entry once.
unfoldable pub values : Entries → List Value
values end = []
values (entry k v rest) = v ∷ values rest

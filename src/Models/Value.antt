-- ===== src/Models/Value.antt =====
-- Dynamic Go values (`any`), as node configurations and node results hold them.
-- A number is the bit pattern of its type; a named field of a `map[string]any` keeps its value.
use operion.Base.{ℕ, String, Bool, Dict, List, [], ◌∷◌, Option, none, some}

mutual
  pub data Value : Type 0 where
    nil : Value
    bool : Bool → Value
    string : String → Value
    int : ℕ → Value
    int64 : ℕ → Value
    int32 : ℕ → Value
    float64 : ℕ → Value
    float32 : ℕ → Value
    slice : Values → Value
    object : Fields → Value
    -- A value of any other Go type.
    other : Value

  pub data Values : Type 0 where
    no_items : Values
    item : Value → Values → Values

  pub data Fields : Type 0 where
    no_fields : Fields
    field : String → Value → Fields → Fields

abbrev pub items : Values → List Value
items no_items = []
items (item v vs) = v ∷ items vs

abbrev pub fields : Fields → Dict Value
fields no_fields = []
fields (field k v fs) = (k, v) ∷ fields fs

abbrev pub slice_of : List Value → Values
slice_of [] = no_items
slice_of (v ∷ vs) = item v (slice_of vs)

abbrev pub object_of : Dict Value → Fields
object_of [] = no_fields
object_of ((k, v) ∷ m) = field k v (object_of m)

-- The type assertions `v.(string)`, `v.([]any)` and `v.(map[string]any)` of an entry that may be
-- missing.
unfoldable pub as_string : Option Value → Option String
as_string (some (string s)) = some s
as_string _ = none

unfoldable pub as_slice : Option Value → Option (List Value)
as_slice (some (slice vs)) = some (items vs)
as_slice _ = none

unfoldable pub as_object : Option Value → Option (Dict Value)
as_object (some (object fs)) = some (fields fs)
as_object _ = none

-- ===== src/Json.antt =====
-- JSON documents as `encoding/json` presents them to internal/apiserver/scheduler/strategy_direct.go
-- and internal/apiserver/node/utils.go: a `json.RawMessage`, decoded into `map[string]interface{}`
-- or into `map[string]string`. A number stands by the integer to which `int(v)` truncates it.
use agents_admin.Prelude.{ℤ, String, str_eq, Bool, Option, none, some, List, [], ◌∷◌, if◌then◌else◌}

mutual
  pub data Json : Type 0 where
    null : Json
    bool : Bool → Json
    num : ℤ → Json
    str : String → Json
    arr : Items → Json
    obj : Fields → Json

  pub data Items : Type 0 where
    nil : Items
    cons : Json → Items → Items

  pub data Fields : Type 0 where
    end : Fields
    field : String → Json → Fields → Fields

-- A `json.RawMessage`: no bytes, bytes that do not parse, or the bytes of a document.
pub data RawMessage : Type 0 where
  absent : RawMessage
  malformed : String → RawMessage
  doc : Json → RawMessage

-- `len(raw) == 0`
abbrev pub is_empty : RawMessage → Bool
is_empty absent = Bool.true
is_empty _ = Bool.false

-- Decoding into `map[string]interface{}`; `none` is an error. `null` leaves the map nil.
unfoldable pub unmarshal_map : RawMessage → Option Fields
unmarshal_map (doc (obj f)) = some f
unmarshal_map (doc null) = some end
unmarshal_map _ = none

-- The lookup `m[k]` of the decoded map: of two fields of one name the later one counts.
unfoldable pub field_value : String → Fields → Option Json
field_value k end = none
field_value k (field j v rest) =
    let later = field_value k rest in
    elim later [ some w ↦ some w | none ↦ if str_eq j k then some v else none ]

-- The type assertion `v.(string)` on a lookup; `""` if it fails.
abbrev pub as_string : Option Json → String
as_string (some (str s)) = s
as_string _ = ""

-- Decoding the fields into `map[string]string`: `null` is the zero value, and a value of any other
-- type is an error. The later entry of a name stands in front.
unfoldable pub string_fields : Fields → List (String × String) → Option (List (String × String))
string_fields end acc = some acc
string_fields (field k (str s) rest) acc = string_fields rest ((k, s) ∷ acc)
string_fields (field k null rest) acc = string_fields rest ((k, "") ∷ acc)
string_fields (field k _ rest) acc = none

unfoldable pub unmarshal_string_map : RawMessage → Option (List (String × String))
unfolding string_fields
unmarshal_string_map (doc (obj f)) = string_fields f []
unmarshal_string_map (doc null) = some []
unmarshal_string_map _ = none

-- The lookup of a key in a `map[string]string`.
unfoldable pub map_get : String → List (String × String) → Option String
map_get k [] = none
map_get k ((j, v) ∷ m) = if str_eq j k then some v else map_get k m

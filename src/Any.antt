-- ===== src/Any.antt =====
-- The values that Go's `any` and `map[string]any` hold in this program, and encoding/json.
use kontxt.Base.{String, ◌≡◌, refl, ap, Bool, true, false, Option, none, some, [], ◌∷◌, Outcome}
use kontxt.Base.Maps.{Map}
use kontxt.Base.Integers.{ℤ}

mutual
  -- `nil_map` is a nil `map[string]any` inside an interface, which is not the nil interface.
  pub data Any : Type 0 where
    null : Any
    boolean : Bool → Any
    number : ℤ → Any
    text : String → Any
    slice : Elements → Any
    nil_map : Any
    object : Members → Any

  pub data Elements : Type 0 where
    no_elements : Elements
    element : Any → Elements → Elements

  pub data Members : Type 0 where
    no_members : Members
    member : String → Any → Members → Members

-- map[string]any; `none` is the nil map.
abbrev pub Object : Type 0
Object = Option (Map String Any)

abbrev pub members : Map String Any → Members
members [] = no_members
members ((k, v) ∷ m) = member k v (members m)

abbrev pub entries : Members → Map String Any
entries no_members = []
entries (member k v m) = (k, v) ∷ entries m

-- A map stored in an interface.
abbrev pub of_object : Object → Any
of_object none = nil_map
of_object (some m) = object (members m)

-- `m, ok := v.(map[string]any)`
abbrev pub as_object : Any → Option Object
as_object nil_map = some none
as_object (object m) = some (some (entries m))
as_object _ = none

-- `s, ok := v.(string)`
abbrev pub as_text : Any → Option String
as_text (text s) = some s
as_text _ = none

-- `v == nil`
abbrev pub is_nil : Any → Bool
is_nil null = true
is_nil _ = false

pub entries-members : (m : Map String Any) → entries (members m) ≡ m
entries-members [] = refl
entries-members ((k, v) ∷ m) = ap (λ (l : Map String Any). (k, v) ∷ l) (entries-members m)

-- encoding/json, which the program only calls. An error is its message.
pub record Json : Type 0 where
  -- json.Marshal
  pub marshal : Any → Outcome String String
  -- json.Unmarshal into a `map[string]any`
  pub unmarshal : String → Outcome String Object

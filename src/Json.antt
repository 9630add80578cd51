-- ===== src/Json.antt =====
-- The values that JSON.parse gives, and the reading of a property. A number is its text.
use hayasend.Base.{String, Bool, true, false, Option, none, some, if◌then◌else◌, ◌==◌, string_eq}

mutual
  pub data Json : Type 0 where
    null : Json
    bool : Bool → Json
    num : String → Json
    text : String → Json
    arr : Items → Json
    obj : Fields → Json

  pub data Items : Type 0 where
    nil : Items
    cons : Json → Items → Items

  pub data Fields : Type 0 where
    end : Fields
    field : String → Json → Fields → Fields

unfoldable pub field_of : String → Fields → Option Json
field_of k end = none
field_of k (field j v rest) = let later = field_of k rest in if j == k then some v else later

-- `value.key`, where `value` is not null; only objects have properties of the names that are read.
unfoldable pub property : String → Json → Option Json
property k (obj fs) = field_of k fs
property k _ = none

-- value !== null && typeof value === "object"
unfoldable pub is_object : Json → Bool
is_object (arr xs) = true
is_object (obj fs) = true
is_object _ = false

-- typeof value === "string"
unfoldable pub is_text : Option Json → Bool
is_text (some (text s)) = true
is_text _ = false

-- value === undefined || typeof value === "string"
unfoldable pub is_optional_text : Option Json → Bool
is_optional_text none = true
is_optional_text (some (text s)) = true
is_optional_text (some _) = false

-- value !== null && typeof value === "object", of a property
unfoldable pub is_object_property : Option Json → Bool
is_object_property none = false
is_object_property (some v) = is_object v

unfoldable pub text_of : Option Json → Option String
text_of (some (text s)) = some s
text_of _ = none

-- value === literal
unfoldable pub equals_text : Option Json → String → Bool
equals_text (some (text s)) literal = s == literal
equals_text _ literal = false

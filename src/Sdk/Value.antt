-- ===== src/Sdk/Value.antt =====
-- JavaScript values that cross the wire: what JSON.parse returns and a response body holds.
use fissionplane.Prelude.{ℕ, Bool, String, Option, none, some, ◌==◌, if◌then◌else◌}

-- A number of JavaScript: an integer (`negsuc n` is -(n + 1)), or one that is not, by its text.
pub data Number : Type 0 where
  pos : ℕ → Number
  negsuc : ℕ → Number
  fractional : String → Number

mutual
  pub data Value : Type 0 where
    null : Value
    boolean : Bool → Value
    number : Number → Value
    text : String → Value
    array : Values → Value
    object : Fields → Value

  pub data Values : Type 0 where
    nil : Values
    cons : Value → Values → Values

  pub data Fields : Type 0 where
    end : Fields
    field : String → Value → Fields → Fields

-- `value[key]` of an object: `none` is undefined.
unfoldable pub property : String → Fields → Option Value
property key end = none
property key (field k v rest) = if k == key then some v else property key rest

abbrev pub as_text : Option Value → Option String
as_text (some (text s)) = some s
as_text _ = none

abbrev pub as_boolean : Option Value → Option Bool
as_boolean (some (boolean b)) = some b
as_boolean _ = none

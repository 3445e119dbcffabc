-- ===== src/Proto/Json.antt =====
-- JSON values as `serde_json` documents them, the part that the harness builds and inspects. An
-- object is the list of its fields in the order of iteration.
use client_rust_test.Base.{
  ℕ, suc, ◌^◌, Bool, Bytes, bytes_eq, Option, none, some, text, if◌then◌else◌, ltb,
}
use Prim.Native.String.{String}

mutual
  pub data Json : Type 0 where
    null : Json
    bool : Bool → Json
    number : ℕ → Json
    -- A number that is negative or has a fraction or an exponent, as it is written.
    real : Bytes → Json
    string : Bytes → Json
    array : Items → Json
    object : Fields → Json

  pub data Items : Type 0 where
    nil : Items
    item : Json → Items → Items

  pub data Fields : Type 0 where
    end : Fields
    field : Bytes → Json → Fields → Fields

-- `Value::as_object`
unfoldable pub as_object : Json → Option Fields
as_object (object fields) = some fields
as_object _ = none

-- The members of an object
unfoldable pub value_of : Bytes → Fields → Option Json
value_of name end = none
value_of name (field n v rest) =
    let later = value_of name rest in if bytes_eq n name then some v else later

unfoldable pub size : Fields → ℕ
size end = 0
size (field n v rest) = suc (size rest)

-- `Value::get` of a name
unfoldable pub member : Bytes → Json → Option Json
unfolding value_of
member name (object fields) = value_of name fields
member name _ = none

-- `Value::as_str`
unfoldable pub as_str : Json → Option Bytes
as_str (string s) = some s
as_str _ = none

-- `Value::as_u64`
unfoldable pub as_u64 : Json → Option ℕ
as_u64 (number n) = if ltb n (2 ^ 64) then some n else none
as_u64 _ = none

-- `json!({name: value})`
abbrev pub single : String → Json → Json
single name value = object (field (text name) value end)

abbrev pub empty_object : Json
empty_object = object end

-- `Value::as_array`
unfoldable pub as_array : Json → Option Items
as_array (array items) = some items
as_array _ = none

-- ===== src/Codec/Json.antt =====
-- JSON values (the type `Value` of the crate serde_json, as the codecs of crates/refract-protocol use it). A number is
-- one of `u64` or any other, kept as its text. A field that is missing and a value that is no object have no fields.
use refract.Base.{ℕ, Bool, Option, none, some, String, if◌then◌else◌}
use refract.Base.Maps.{string_eq}

mutual
  pub data Json : Type 0 where
    null : Json
    bool : Bool → Json
    num : ℕ → Json
    other_num : String → Json
    str : String → Json
    arr : Items → Json
    obj : Fields → Json

  pub data Items : Type 0 where
    nil : Items
    cons : Json → Items → Items

  pub data Fields : Type 0 where
    end : Fields
    field : String → Json → Fields → Fields

unfoldable pub find_field : String → Fields → Option Json
find_field k end = none
find_field k (field j v fs) = if string_eq.beq j k then some v else find_field k fs

-- `Value::get`, `as_str` and `as_u64`.
unfoldable pub get_field : String → Json → Option Json
unfolding find_field
get_field k (obj fs) = find_field k fs
get_field k _ = none

unfoldable pub as_str : Json → Option String
as_str (str s) = some s
as_str _ = none

unfoldable pub as_u64 : Json → Option ℕ
as_u64 (num n) = some n
as_u64 _ = none

-- The text of JSON: `serde_json::from_str`, and `to_string` of a value.
pub record JsonText : Type 0 where
  pub parse : String → Option Json
  pub print : Json → String

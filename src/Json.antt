-- ===== src/Json.antt =====
-- JSON values as the program holds them: `Value` of the crate serde_json. Only its constructors and
-- the tests `is_*` and `as_i64` that the source calls are here. A number is held as serde_json holds
-- it: a `u64`, a negative `i64`, or an `f64`, given by its bits.
use earl.Prelude.{ℕ, ◌≡◌, ◌⊎◌, ◌^◌, Bool, true, false, ltb, List, [], ◌∷◌}
use earl.Text.{Text}

pub data Number : Type 0 where
  pos_int : ℕ → Number
  neg_int : ℕ → Number
  float : ℕ → Number

mutual
  pub data Value : Type 0 where
    null : Value
    bool : Bool → Value
    number : Number → Value
    string : Text → Value
    array : Items → Value
    object : Fields → Value

  pub data Items : Type 0 where
    nil : Items
    cons : Value → Items → Items

  pub data Fields : Type 0 where
    end : Fields
    field : Text → Value → Fields → Fields

abbrev pub is_null : Value → Bool
is_null null = true
is_null _ = false

abbrev pub is_boolean : Value → Bool
is_boolean (bool b) = true
is_boolean _ = false

abbrev pub is_number : Value → Bool
is_number (number n) = true
is_number _ = false

abbrev pub is_string : Value → Bool
is_string (string s) = true
is_string _ = false

abbrev pub is_array : Value → Bool
is_array (array vs) = true
is_array _ = false

abbrev pub is_object : Value → Bool
is_object (object fs) = true
is_object _ = false

-- `as_i64().is_some()`: a `u64` from 2 ^ 63 up is no `i64`.
abbrev pub is_i64 : Value → Bool
is_i64 (number (pos_int n)) = ltb n (2 ^ 63)
is_i64 (number (neg_int n)) = true
is_i64 _ = false

-- `json!({..})` and `json!([..])`.
abbrev pub fields_of : List (Text × Value) → Fields
fields_of [] = end
fields_of ((name, value) ∷ more) = field name value (fields_of more)

abbrev pub items_of : List Value → Items
items_of [] = nil
items_of (value ∷ more) = cons value (items_of more)

abbrev pub json_object : List (Text × Value) → Value
json_object members = object (fields_of members)

abbrev pub json_array : List Value → Value
json_array values = array (items_of values)

-- The object has a member of this name and value.
abbrev FieldsHave : Text → Value → Fields → Type 0
FieldsHave name member end = ⊥
FieldsHave name member (field key value more) =
    ((key ≡ name) × (value ≡ member)) ⊎ FieldsHave name member more

abbrev pub HasMember : Text → Value → Value → Type 0
HasMember name member (object fields) = FieldsHave name member fields
HasMember name member _ = ⊥

-- The array has this element.
abbrev ItemsHave : Value → Items → Type 0
ItemsHave element nil = ⊥
ItemsHave element (cons value more) = (value ≡ element) ⊎ ItemsHave element more

abbrev pub HasElement : Value → Value → Type 0
HasElement element (array items) = ItemsHave element items
HasElement element _ = ⊥

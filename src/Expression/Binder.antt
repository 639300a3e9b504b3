-- ===== src/Expression/Binder.antt =====
-- The binding of arguments to parameters: src/expression/binder.rs. The loops over `out` are folds
-- with its map as the state.
pub mod Loops
pub mod Typed
use earl.Prelude.{
  ℕ, zero, suc, ◌<◌, ◌^◌, Bool, true, false, not, ◌&&◌, Option, none, some, List, [], ◌∷◌, ltb,
  if◌then◌else◌, any, length, Result, ok, err, ◌>>=◌, ◌>>◌,
}
use earl.Text.{Text, codes, text_eq}
use earl.Text.Keys.{Map, lookup, contains_key, insert}
use earl.Json.{Value, is_null, is_boolean, is_number, is_string, is_array, is_object, is_i64}
use earl.Schema.{ParamType, ParamSpec, label}
use earl.Expression.{CallExpression}

pub data BindError : Type 0 where
  too_many_positional : (expected actual : ℕ) → BindError
  unknown_argument duplicate_argument missing_required : (name : Text) → BindError
  invalid_type : (name expected actual : Text) → BindError

unfoldable pub matches_type : Value → ParamType → Bool
matches_type value ParamType.string = is_string value
matches_type value ParamType.integer = is_i64 value
matches_type value ParamType.number = is_number value
matches_type value ParamType.boolean = is_boolean value
matches_type value ParamType.null = is_null value
matches_type value ParamType.array = is_array value
matches_type value ParamType.object = is_object value

unfoldable pub value_type_name : Value → Text
value_type_name value =
    if is_string value
    then codes "string"
    else if is_i64 value
    then codes "integer"
    else if is_number value
    then codes "number"
    else if is_boolean value
    then codes "boolean"
    else if is_null value
    then codes "null"
    else if is_array value
    then codes "array"
    else if is_object value
    then codes "object"
    else codes "unknown"

-- The body of both loops over given arguments: a name that is there already is an error.
unfoldable pub insert_new : Text → Value → Map Value → Result BindError (Map Value)
unfolding contains_key insert
insert_new name value out =
    if contains_key name out
    then err (BindError.duplicate_argument name)
    else ok (insert name value out)

-- `params[idx]` for each value in turn; the guard before the loop keeps the index in range.
unfoldable pub bind_positional :
    List Value → List ParamSpec → Map Value → Result BindError (Map Value)
unfolding insert_new
bind_positional [] params out = ok out
bind_positional (value ∷ values) [] out = ok out
bind_positional (value ∷ values) (param ∷ params) out =
    insert_new param.name value out >>= bind_positional values params

abbrev pub is_param : List ParamSpec → Text → Bool
is_param params name = any (λ p. text_eq p.name name) params

unfoldable pub bind_named :
    List (Text × Value) → List ParamSpec → Map Value → Result BindError (Map Value)
unfolding insert_new any text_eq
bind_named [] params out = ok out
bind_named ((name, value) ∷ named) params out =
    if not (is_param params name)
    then err (BindError.unknown_argument name)
    else (insert_new name value out >>= bind_named named params)

-- One round of the loop that fills in defaults.
unfoldable pub fill_default : ParamSpec → Map Value → Result BindError (Map Value)
unfolding contains_key insert
fill_default param out =
    if not (contains_key param.name out)
    then elim param.default [
      | some default_value ↦ ok (insert param.name default_value out)
      | none ↦ if param.required then err (BindError.missing_required param.name) else ok out
    ]
    else ok out

unfoldable pub fill_defaults : List ParamSpec → Map Value → Result BindError (Map Value)
unfolding fill_default
fill_defaults [] out = ok out
fill_defaults (param ∷ params) out = fill_default param out >>= fill_defaults params

unfoldable pub check_value : ParamSpec → Option Value → Result BindError (Unit {0})
unfolding matches_type value_type_name label
check_value param none = ok tt
check_value param (some value) =
    if not (is_null value) && not (matches_type value param.type)
    then err (BindError.invalid_type param.name (label param.type) (value_type_name value))
    else ok tt

unfoldable pub check_types : List ParamSpec → Map Value → Result BindError (Unit {0})
unfolding check_value lookup
check_types [] out = ok tt
check_types (param ∷ params) out =
    check_value param (lookup param.name out) >> check_types params out

unfoldable pub bind_arguments : CallExpression → List ParamSpec → Result BindError (Map Value)
unfolding bind_positional bind_named fill_defaults check_types
bind_arguments expression params =
    if ltb (length params) (length expression.positional_args)
    then err (BindError.too_many_positional (length params) (length expression.positional_args))
    else do
      given ← bind_positional expression.positional_args params []
      named ← bind_named expression.named_args params given
      out ← fill_defaults params named
      check_types params out >> ok out

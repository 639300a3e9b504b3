-- ===== src/Expression/CliArgs.antt =====
-- The command line as a call: src/expression/cli_args.rs. The index `i` of the source is the list of
-- the tokens from there on. `str::parse::<f64>` with `Number::from_f64`, and `serde_json::from_str`,
-- are parameters.
pub mod Loop
pub mod Calls
pub mod RoundTrip
use earl.Prelude.{
  ℕ, suc, ◌+◌, ◌-◌, ◌*◌, ◌^◌, ◌≤◌, Bool, true, false, not, ◌||◌, Option, none, some, List, [], ◌∷◌,
  ◌++◌, leb, within, ltb, ◌==◌, if◌then◌else◌, is_empty, Result, ok, err, ◌>>=◌,
}
use earl.Text.{Text, codes, text_eq, starts_with, strip_prefix, split_once}
use earl.Json.{Value, Number, pos_int, neg_int}
use earl.Schema.{ParamType, ParamSpec}
use earl.Expression.{CallExpression}

pub data CliArgsError : Type 0 where
  invalid_command unknown_param missing_value bare_argument : Text → CliArgsError
  invalid_value : (name expected value : Text) → CliArgsError

-- `str::parse::<i64>`, as the number that serde_json makes of it.
digits : ℕ → Text → Option ℕ
digits acc [] = some acc
digits acc (c ∷ s) = if within b'0' b'9' c then digits (acc * 10 + (c - b'0')) s else none

nonempty_digits : Text → Option ℕ
unfolding digits
nonempty_digits s = if is_empty s then none else digits 0 s

positive : Option ℕ → Option Number
positive none = none
positive (some n) = if ltb n (2 ^ 63) then some (pos_int n) else none

negative : Option ℕ → Option Number
negative none = none
negative (some n) =
    if n == 0 then some (pos_int 0) else if leb n (2 ^ 63) then some (neg_int (n - 1)) else none

unfoldable pub parse_i64 : Text → Option Number
unfolding nonempty_digits positive negative
parse_i64 [] = none
parse_i64 (c ∷ s) =
    if c == b'-'
    then negative (nonempty_digits s)
    else if c == b'+'
    then positive (nonempty_digits s)
    else positive (nonempty_digits (c ∷ s))

-- The parsers of other crates.
pub record Parsers : Type 0 where
  pub parse_f64 : Text → Option Number
  pub from_str : Text → Option Value

abbrev pub or_invalid : Text → Text → Text → Option Value → Result CliArgsError Value
or_invalid name expected raw none = err (CliArgsError.invalid_value name expected raw)
or_invalid name expected raw (some v) = ok v

abbrev pub map_number : Option Number → Option Value
map_number none = none
map_number (some n) = some (Value.number n)

unfoldable pub parse_typed_value : Parsers → Text → Text → ParamType → Result CliArgsError Value
unfolding parse_i64 text_eq
parse_typed_value ps name raw ParamType.string = ok (Value.string raw)
parse_typed_value ps name raw ParamType.integer =
    or_invalid name (codes "integer") raw (map_number (parse_i64 raw))
parse_typed_value ps name raw ParamType.number =
    or_invalid name (codes "number") raw (map_number (ps.parse_f64 raw))
parse_typed_value ps name raw ParamType.boolean =
    if text_eq raw (codes "true")
    then ok (Value.bool true)
    else if text_eq raw (codes "false")
    then ok (Value.bool false)
    else err (CliArgsError.invalid_value name (codes "boolean") raw)
parse_typed_value ps name raw ParamType.null =
    if text_eq raw (codes "null")
    then ok Value.null
    else err (CliArgsError.invalid_value name (codes "null") raw)
parse_typed_value ps name raw ParamType.array =
    or_invalid name (codes "JSON array") raw (ps.from_str raw)
parse_typed_value ps name raw ParamType.object =
    or_invalid name (codes "JSON object") raw (ps.from_str raw)

-- `params.iter().find(|p| p.name == name)`.
unfoldable pub find_param : List ParamSpec → Text → Option ParamSpec
unfolding text_eq
find_param [] name = none
find_param (p ∷ params) name = if text_eq p.name name then some p else find_param params name

-- The head of the loop's body: the name behind the dashes, and its parameter.
unfoldable pub named_param : List ParamSpec → Text → Result CliArgsError (Text × ParamSpec)
unfolding strip_prefix find_param
named_param params token = elim (strip_prefix (codes "--") token) [
  | none ↦ err (CliArgsError.bare_argument token)
  | some [] ↦ err (CliArgsError.bare_argument token)
  | some (c ∷ s) ↦ elim (find_param params (c ∷ s)) [
    | none ↦ err (CliArgsError.unknown_param (c ∷ s))
    | some spec ↦ ok (c ∷ s, spec)
  ]
]

abbrev pub is_boolean_type : ParamType → Bool
is_boolean_type ParamType.boolean = true
is_boolean_type _ = false

-- The literal behind a flag, if the next token is one.
unfoldable pub bool_literal : Text → Option Bool
unfolding starts_with text_eq
bool_literal raw =
    if starts_with (codes "--") raw
    then none
    else if text_eq raw (codes "true")
    then some true
    else if text_eq raw (codes "false")
    then some false
    else none

abbrev pub push : List (Text × Value) → Text → Value → List (Text × Value)
push named name value = named ++ (name, value) ∷ []

-- The `while` loop over the tokens.
unfoldable pub parse_tokens :
    Parsers
    → List ParamSpec
    → List (Text × Value)
    → List Text
    → Result CliArgsError (List (Text × Value))
unfolding named_param bool_literal parse_typed_value
parse_tokens ps params named_args [] = ok named_args
parse_tokens ps params named_args (token ∷ []) = named_param params token >>= λ (name, spec).
    if is_boolean_type spec.type
    then ok (push named_args name (Value.bool true))
    else err (CliArgsError.missing_value name)
parse_tokens ps params named_args (token ∷ raw ∷ rest) =
    named_param params token >>= λ (name, spec). elim (is_boolean_type spec.type) [
      | true ↦ elim (bool_literal raw) [
        | some b ↦ parse_tokens ps params (push named_args name (Value.bool b)) rest
        | none ↦ parse_tokens ps params (push named_args name (Value.bool true)) (raw ∷ rest)
      ]
      | false ↦ parse_typed_value ps name raw spec.type >>= λ value.
          parse_tokens ps params (push named_args name value) rest
    ]

unfoldable pub parse_cli_args :
    Parsers → Text → List Text → List ParamSpec → Result CliArgsError CallExpression
unfolding split_once parse_tokens
parse_cli_args ps command raw_args params = elim (split_once (codes ".") command) [
  | none ↦ err (CliArgsError.invalid_command command)
  | some (provider, cmd) ↦
      if is_empty provider || is_empty cmd
      then err (CliArgsError.invalid_command command)
      else (parse_tokens ps params [] raw_args >>= λ named_args. ok (record {
        provider = provider;
        command = cmd;
        positional_args = [];
        named_args = named_args;
      }))
]

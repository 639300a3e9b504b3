-- ===== src/Expression/Tests.antt =====
-- Command lines and bindings of src/expression/, and instances of the theorems.
use earl.Prelude.{
  Bool, true, false, ◌≡◌, refl, ◌≢◌, Option, none, some, List, [], ◌∷◌, ◌++◌, map, Result, ok, err,
}
use earl.Text.{Text, codes}
use earl.Text.Keys.{Map}
use earl.Json.{Value, pos_int, neg_int}
use earl.Schema.{ParamType, ParamSpec}
use earl.Expression.{CallExpression}
use earl.Expression.Binder.{BindError, bind_arguments}
use earl.Expression.Binder.Typed.{IsBound, bind_arguments-IsBound}
use earl.Expression.CliArgs.{Parsers, CliArgsError, find_param, parse_tokens, parse_cli_args}
use earl.Expression.CliArgs.Calls.{
  IsParsed, IsLate, parse_cli_args-IsParsed, bind_arguments-parse_cli_args,
}
use earl.Expression.CliArgs.RoundTrip.{tokens_of, text_value, parse_tokens-tokens_of}

abbrev param : Text → ParamType → Bool → Option Value → ParamSpec
param name type required default = record {
  name = name;
  type = type;
  required = required;
  default = default;
  description = none;
}

abbrev params : List ParamSpec
params =
    param (codes "query") ParamType.string true none
    ∷ param (codes "limit") ParamType.integer false (some (Value.number (pos_int 10)))
    ∷ param (codes "all") ParamType.boolean false none
    ∷ []

-- Parsers that refuse everything: no argument below is a float or a JSON text.
abbrev parsers : Parsers
parsers = record { parse_f64 = λ s. none; from_str = λ s. none }

abbrev parse : List Text → Result CliArgsError CallExpression
parse tokens = parse_cli_args parsers (codes "github.search") tokens params

abbrev call : List (Text × Value) → CallExpression
call named = record {
  provider = codes "github";
  command = codes "search";
  positional_args = [];
  named_args = named;
}

abbrev line : List Text
line = codes "--all" ∷ codes "--query" ∷ codes "rust" ∷ codes "--limit" ∷ codes "-5" ∷ []

abbrev parsed_call : CallExpression
parsed_call = call (
    (codes "all", Value.bool true)
    ∷ (codes "query", Value.string (codes "rust"))
    ∷ (codes "limit", Value.number (neg_int 4))
    ∷ [])

parsed : parse line ≡ ok parsed_call
unfolding parse_cli_args
parsed = refl

parse_errors :
    (parse (codes "bare" ∷ []) ≡ err (CliArgsError.bare_argument (codes "bare")))
    × (parse (codes "--nope" ∷ []) ≡ err (CliArgsError.unknown_param (codes "nope")))
    × (parse (codes "--query" ∷ []) ≡ err (CliArgsError.missing_value (codes "query")))
    × (parse_cli_args parsers (codes "github") [] params
        ≡ err (CliArgsError.invalid_command (codes "github")))
unfolding parse_cli_args
parse_errors = (refl, refl, refl, refl)

abbrev bound : Map Value
bound =
    (codes "all", Value.bool true)
    ∷ (codes "limit", Value.number (neg_int 4))
    ∷ (codes "query", Value.string (codes "rust"))
    ∷ []

bound_test : bind_arguments parsed_call params ≡ ok bound
unfolding bind_arguments
bound_test = refl

missing_test : bind_arguments (call []) params ≡ err (BindError.missing_required (codes "query"))
unfolding bind_arguments
missing_test = refl

bind_arguments-IsBound_example : IsBound parsed_call params bound
bind_arguments-IsBound_example = bind_arguments-IsBound parsed_call params bound bound_test

parse_cli_args-IsParsed_example : IsParsed parsers (codes "github.search") params parsed_call
parse_cli_args-IsParsed_example =
    parse_cli_args-IsParsed parsers (codes "github.search") line params parsed_call parsed

parse_nothing : parse [] ≡ ok (call [])
unfolding parse_cli_args
parse_nothing = refl

bind_arguments-parse_cli_args_example : IsLate (BindError.missing_required (codes "query"))
bind_arguments-parse_cli_args_example =
    bind_arguments-parse_cli_args parsers (codes "github.search") [] params (call [])
      (BindError.missing_required (codes "query")) parse_nothing missing_test

-- A value that begins with dashes.
abbrev texts : List (Text × Text)
texts = (codes "query", codes "--limit") ∷ []

found_query :
    find_param params (codes "query") ≡ some (param (codes "query") ParamType.string true none)
unfolding find_param
found_query = refl

query_named : codes "query" ≢ []
query_named e = cc

parse_tokens-tokens_of_example :
    parse_tokens parsers params [] (tokens_of texts) ≡ ok ([] ++ map text_value texts)
parse_tokens-tokens_of_example =
    parse_tokens-tokens_of parsers params [] texts
      ((query_named, (param (codes "query") ParamType.string true none, found_query, refl)), tt)

-- ===== src/Expression/CliArgs/RoundTrip.antt =====
-- Command lines that src/expression/cli_args.rs reads back as they were written.
use mathlib.Core.List.{append_assoc, append-nil}
use earl.Prelude.{◌≡◌, refl, ◌≢◌, some, List, [], ◌∷◌, ◌++◌, arith, ok, All, map}
use earl.Text.{Text, codes}
use earl.Json.{Value}
use earl.Schema.{ParamType, ParamSpec}
use earl.Expression.CliArgs.{Parsers, find_param, named_param, push, parse_tokens}

-- `--name value` for each pair.
abbrev pub tokens_of : List (Text × Text) → List Text
tokens_of [] = []
tokens_of ((name, s) ∷ args) = (codes "--" ++ name) ∷ s ∷ tokens_of args

-- The name of a declared string parameter.
abbrev pub IsTextParam : List ParamSpec → Text × Text → Type 0
IsTextParam params a =
    (a.0 ≢ [])
    × ((spec : ParamSpec) × (find_param params a.0 ≡ some spec) × (spec.type ≡ ParamType.string))

abbrev pub text_value : Text × Text → Text × Value
text_value a = (a.0, Value.string a.1)

named_param-dashes :
    (params : List ParamSpec) (name : Text) (spec : ParamSpec)
    → name ≢ []
    → find_param params name ≡ some spec
    → named_param params (codes "--" ++ name) ≡ ok (name, spec)
unfolding named_param
named_param-dashes params [] spec n h = absurd (n refl)
named_param-dashes params (c ∷ s) spec n h = rw (h, named_param)

-- String arguments survive the command line: written as `--name value`, they are read back in order
-- with the text unchanged, also where a value begins with dashes.
pub parse_tokens-tokens_of :
    (ps : Parsers) (params : List ParamSpec) (named : List (Text × Value))
    (args : List (Text × Text))
    → All (IsTextParam params) args
    → parse_tokens ps params named (tokens_of args) ≡ ok (named ++ map text_value args)
unfolding parse_tokens
parse_tokens-tokens_of ps params named [] d = rw append-nil
parse_tokens-tokens_of ps params named ((name, s) ∷ args) ((n, (spec, found, text_type)), ds) =
    let step = named_param-dashes params name spec n found in
    let ih = parse_tokens-tokens_of ps params (push named name (Value.string s)) args ds in
    let joined = append_assoc named ((name, Value.string s) ∷ []) (map text_value args) in
    ground (arith, step, ih, joined)

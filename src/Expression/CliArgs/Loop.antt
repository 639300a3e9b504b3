-- ===== src/Expression/CliArgs/Loop.antt =====
-- What the loop of src/expression/cli_args.rs collects.
use earl.Prelude.{
  ℕ, ◌-◌, ◌^◌, Bool, true, false, ◌≡◌, refl, sym, subst, inl, inr, Option, none, some, List, [],
  ◌∷◌, arith, leb, ltb, ◌==◌, ok, bind-eq_ok, All, All-append, Bool-cases, Option-cases, any,
}
use earl.Text.{Text, codes, text_eq}
use earl.Json.{Value, Number}
use earl.Schema.{ParamType, ParamSpec}
use earl.Expression.Binder.{is_param}
use earl.Expression.Binder.Typed.{HasType}
use earl.Expression.CliArgs.{
  positive, negative, nonempty_digits, parse_i64, Parsers, or_invalid, map_number,
  parse_typed_value, find_param, named_param, is_boolean_type, bool_literal, push, parse_tokens,
}

-- The values that a token can give for a parameter: those of its type, except that the text of an
-- array or an object may be any JSON that the parser reads.
abbrev pub FromToken : Parsers → ParamType → Value → Type 0
FromToken ps ParamType.array v = (raw : Text) × (ps.from_str raw ≡ some v)
FromToken ps ParamType.object v = (raw : Text) × (ps.from_str raw ≡ some v)
FromToken ps t v = HasType t v

positive_range :
    (o : Option ℕ) (n : Number) → positive o ≡ some n → HasType ParamType.integer (Value.number n)
unfolding positive
positive_range none n h = cc
positive_range (some k) n h = elim (Bool-cases (ltb k (2 ^ 63))) [
  | inl small ↦ inl (k, ground arith, ground arith)
  | inr big ↦ absurd (ground arith)
]

negative_range :
    (o : Option ℕ) (n : Number) → negative o ≡ some n → HasType ParamType.integer (Value.number n)
unfolding negative
negative_range none n h = cc
negative_range (some k) n h = elim (Bool-cases (k == 0)) [
  | inl zero_value ↦ inl (0, ground arith, omega arith)
  | inr other ↦ elim (Bool-cases (leb k (2 ^ 63))) [
    | inl small ↦ inr (k - 1, ground arith)
    | inr big ↦ absurd (ground arith)
  ]
]

parse_i64_range :
    (raw : Text) (n : Number) → parse_i64 raw ≡ some n → HasType ParamType.integer (Value.number n)
unfolding parse_i64
parse_i64_range [] n h = cc
parse_i64_range (c ∷ s) n h = elim (Bool-cases (c == b'-')) [
  | inl minus ↦ negative_range (nonempty_digits s) n (ground arith)
  | inr other ↦ elim (Bool-cases (c == b'+')) [
    | inl plus ↦ positive_range (nonempty_digits s) n (ground arith)
    | inr digit ↦ positive_range (nonempty_digits (c ∷ s)) n (ground arith)
  ]
]

or_invalid_inv :
    (name expected raw : Text) (o : Option Value) {v : Value}
    → or_invalid name expected raw o ≡ ok v
    → o ≡ some v
or_invalid_inv name expected raw none h = cc
or_invalid_inv name expected raw (some w) h = ground arith

map_number_inv :
    (o : Option Number) {v : Value}
    → map_number o ≡ some v
    → (n : Number) × (o ≡ some n) × (Value.number n ≡ v)
map_number_inv none h = cc
map_number_inv (some n) h = (n, refl, ground arith)

pub parse_typed_value-FromToken :
    (ps : Parsers) (name raw : Text) (t : ParamType) (v : Value)
    → parse_typed_value ps name raw t ≡ ok v
    → FromToken ps t v
unfolding parse_typed_value
parse_typed_value-FromToken ps name raw ParamType.string v h = (raw, ground arith)
parse_typed_value-FromToken ps name raw ParamType.integer v h =
    let (n, read, same) = map_number_inv (parse_i64 raw) (or_invalid_inv _ _ _ _ h) in
    subst (HasType ParamType.integer) same (parse_i64_range raw n read)
parse_typed_value-FromToken ps name raw ParamType.number v h =
    let (n, read, same) = map_number_inv (ps.parse_f64 raw) (or_invalid_inv _ _ _ _ h) in
    (n, sym same)
parse_typed_value-FromToken ps name raw ParamType.boolean v h =
    elim (Bool-cases (text_eq raw (codes "true"))) [
      | inl yes_ ↦ (true, ground arith)
      | inr other ↦ elim (Bool-cases (text_eq raw (codes "false"))) [
        | inl no_ ↦ (false, ground arith)
        | inr bad ↦ absurd (ground arith)
      ]
    ]
parse_typed_value-FromToken ps name raw ParamType.null v h = ground arith
parse_typed_value-FromToken ps name raw ParamType.array v h = (raw, or_invalid_inv _ _ _ _ h)
parse_typed_value-FromToken ps name raw ParamType.object v h = (raw, or_invalid_inv _ _ _ _ h)

-- One collected argument: its name is a declared parameter's, and its value can come from a token.
abbrev pub IsArgument : Parsers → List ParamSpec → Text × Value → Type 0
IsArgument ps params a =
    (spec : ParamSpec) × (find_param params a.0 ≡ some spec) × FromToken ps spec.type a.1

named_param_inv :
    (params : List ParamSpec) (token name : Text) (spec : ParamSpec)
    → named_param params token ≡ ok (name, spec)
    → find_param params name ≡ some spec
unfolding named_param
named_param_inv params token name spec h = ground arith

boolean-FromToken :
    (ps : Parsers) (t : ParamType) (b : Bool)
    → is_boolean_type t ≡ true
    → FromToken ps t (Value.bool b)
boolean-FromToken ps ParamType.boolean b h = (b, refl)
boolean-FromToken ps _ b h = cc

-- One more argument at the end.
push-IsArgument :
    (ps : Parsers) (params : List ParamSpec) (named : List (Text × Value)) (token name : Text)
    (spec : ParamSpec) (value : Value)
    → All (IsArgument ps params) named
    → named_param params token ≡ ok (name, spec)
    → FromToken ps spec.type value
    → All (IsArgument ps params) (push named name value)
push-IsArgument ps params named token name spec value a found fits =
    All-append (IsArgument ps params) named ((name, value) ∷ []) a
      ((spec, named_param_inv params token name spec found, fits), tt)

pub parse_tokens-IsArgument :
    (ps : Parsers) (params : List ParamSpec) (named out : List (Text × Value)) (tokens : List Text)
    → All (IsArgument ps params) named
    → parse_tokens ps params named tokens ≡ ok out
    → All (IsArgument ps params) out
unfolding parse_tokens
parse_tokens-IsArgument ps params named out [] a h =
    let same : named ≡ out = ground arith in subst (All (IsArgument ps params)) same a
parse_tokens-IsArgument ps params named out (token ∷ []) a h =
    let ((name, spec), found, h') = bind-eq_ok (named_param params token) _ h in
    elim (Bool-cases (is_boolean_type spec.type)) [
      | inl flag ↦
          (let same : push named name (Value.bool true) ≡ out = ground arith in
            subst (All (IsArgument ps params)) same (
              push-IsArgument ps params named token name spec (Value.bool true) a found
                (boolean-FromToken ps spec.type true flag)))
      | inr other ↦ absurd (ground arith)
    ]
parse_tokens-IsArgument ps params named out (token ∷ raw ∷ rest) a h =
    let ((name, spec), found, h') = bind-eq_ok (named_param params token) _ h in
    elim (Bool-cases (is_boolean_type spec.type)) [
      | inl flag ↦ elim (Option-cases (bool_literal raw)) [
        | inr (b, read) ↦
            parse_tokens-IsArgument ps params (push named name (Value.bool b)) out rest
              (push-IsArgument ps params named token name spec (Value.bool b) a found
                (boolean-FromToken ps spec.type b flag))
              (ground arith)
        | inl none_read ↦
            parse_tokens-IsArgument ps params (push named name (Value.bool true)) out (raw ∷ rest)
              (push-IsArgument ps params named token name spec (Value.bool true) a found
                (boolean-FromToken ps spec.type true flag))
              (ground arith)
      ]
      | inr other ↦
          (let (value, parsed, h'') =
              bind-eq_ok (parse_typed_value ps name raw spec.type) _ (rw other at h') in
            parse_tokens-IsArgument ps params (push named name value) out rest
              (push-IsArgument ps params named token name spec value a found
                (parse_typed_value-FromToken ps name raw spec.type value parsed))
              h'')
    ]

-- A parameter that is found by its name is a declared one.
pub find_param-is_param :
    (params : List ParamSpec) (name : Text) (spec : ParamSpec)
    → find_param params name ≡ some spec
    → is_param params name ≡ true
unfolding find_param any
find_param-is_param [] name spec h = cc
find_param-is_param (p ∷ params) name spec h = ground (arith, find_param-is_param params name spec)

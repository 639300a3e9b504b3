-- ===== src/Expression/CliArgs/Calls.antt =====
-- What `parse_cli_args` of src/expression/cli_args.rs returns, and that it fits the binder.
use earl.Prelude.{
  true, false, ◌||◌, ◌≡◌, refl, sym, subst, ◌≢◌, inl, inr, Option, none, some, List, [], ◌∷◌, arith,
  is_empty, ok, err, bind-eq_ok, Result-cases, All, All-map, Bool-cases, Option-cases, ltb, length,
}
use earl.Text.{Text, codes, split_once}
use earl.Text.Laws.{split_once-eq_some}
use earl.Text.Keys.{Map, lookup}
use earl.Json.{Value}
use earl.Schema.{ParamSpec}
use earl.Expression.{CallExpression, command_key}
use earl.Expression.Binder.{
  BindError, insert_new, bind_positional, is_param, bind_named, fill_default, fill_defaults,
  check_value, check_types, bind_arguments,
}
use earl.Expression.CliArgs.{Parsers, parse_tokens, parse_cli_args}
use earl.Expression.CliArgs.Loop.{IsArgument, parse_tokens-IsArgument, find_param-is_param}

-- What a parsed call promises: it names the given command, split at its first dot into two parts
-- that are not empty, has no positional argument, and each named one is declared and has a value that a
-- token gives for its type: one of that type, but any JSON for an array or an object.
pub record IsParsed (ps : Parsers) (command : Text) (params : List ParamSpec)
    (call : CallExpression) : Type 0 where
  pub key : command_key call ≡ command
  pub provider : call.provider ≢ []
  pub command_part : call.command ≢ []
  pub positional : call.positional_args ≡ []
  pub named : All (IsArgument ps params) call.named_args

nonempty : (s : Text) → is_empty s ≡ false → s ≢ []
nonempty [] h e = cc
nonempty (c ∷ s) h e = cc

module _ (ps : Parsers) (command : Text) (raw_args : List Text) (params : List ParamSpec) where
  -- A command line that parses gives a call that names the given command, has no positional argument
  -- and only declared ones, each of the type of its parameter, except that one for an array or an object
  -- may be any JSON value.
  pub parse_cli_args-IsParsed :
      (call : CallExpression)
      → parse_cli_args ps command raw_args params ≡ ok call
      → IsParsed ps command params call
  unfolding parse_cli_args command_key
  parse_cli_args-IsParsed call h = elim (Option-cases (split_once (codes ".") command)) [
    | inl e ↦ absurd (ground arith)
    | inr ((provider, cmd), e) ↦ elim (Bool-cases (is_empty provider || is_empty cmd)) [
      | inl bad ↦ absurd (ground arith)
      | inr good ↦
          (let (named_args, parsed, same) =
              bind-eq_ok (parse_tokens ps params [] raw_args) _
                (rw (e, parse_cli_args, good) at h) in
            subst (IsParsed ps command params) (ground arith) (record {
              key = sym (split_once-eq_some (codes ".") command provider cmd e);
              provider = nonempty provider (ground arith);
              command_part = nonempty cmd (ground arith);
              positional = refl;
              named = parse_tokens-IsArgument ps params [] named_args raw_args tt parsed;
            }))
    ]
  ]

-- The errors of the binder that a parsed call can still meet: a name given twice, a required
-- parameter left out, or a value of another type, which a default or a JSON text can have.
abbrev pub IsLate : BindError → Type 0
IsLate (BindError.too_many_positional expected actual) = ⊥
IsLate (BindError.unknown_argument name) = ⊥
IsLate (BindError.duplicate_argument name) = Unit
IsLate (BindError.missing_required name) = Unit
IsLate (BindError.invalid_type name expected actual) = Unit

insert_new-IsLate :
    (name : Text) (value : Value) (out : Map Value) (e : BindError)
    → insert_new name value out ≡ err e
    → IsLate e
unfolding insert_new
insert_new-IsLate name value out (BindError.duplicate_argument n) h = tt
insert_new-IsLate name value out _ h = ground arith

bind_named-IsLate :
    (named : List (Text × Value)) (params : List ParamSpec) (out : Map Value) (e : BindError)
    → All (λ a. is_param params a.0 ≡ true) named
    → bind_named named params out ≡ err e
    → IsLate e
unfolding bind_named
bind_named-IsLate [] params out e d h = absurd (ground arith)
bind_named-IsLate ((name, value) ∷ named) params out e (d, ds) h =
    elim (Result-cases (insert_new name value out)) [
      | inl (mid, made) ↦ bind_named-IsLate named params mid e ds (rw (d, made) at h)
      | inr (x, made) ↦ insert_new-IsLate name value out e (ground arith)
    ]

fill_default-IsLate :
    (p : ParamSpec) (out : Map Value) (e : BindError) → fill_default p out ≡ err e → IsLate e
unfolding fill_default
fill_default-IsLate p out (BindError.missing_required n) h = tt
fill_default-IsLate p out _ h = ground arith

fill_defaults-IsLate :
    (params : List ParamSpec) (out : Map Value) (e : BindError)
    → fill_defaults params out ≡ err e
    → IsLate e
unfolding fill_defaults
fill_defaults-IsLate [] out e h = absurd (ground arith)
fill_defaults-IsLate (p ∷ params) out e h = elim (Result-cases (fill_default p out)) [
  | inl (mid, made) ↦ fill_defaults-IsLate params mid e (rw made at h)
  | inr (x, made) ↦ fill_default-IsLate p out e (ground arith)
]

check_value-IsLate :
    (p : ParamSpec) (o : Option Value) (e : BindError) → check_value p o ≡ err e → IsLate e
unfolding check_value
check_value-IsLate p none e h = absurd (ground arith)
check_value-IsLate p (some v) (BindError.invalid_type a b c) h = tt
check_value-IsLate p (some v) _ h = ground arith

check_types-IsLate :
    (params : List ParamSpec) (out : Map Value) (e : BindError)
    → check_types params out ≡ err e
    → IsLate e
unfolding check_types
check_types-IsLate [] out e h = absurd (ground arith)
check_types-IsLate (p ∷ params) out e h = elim (Result-cases (check_value p (lookup p.name out))) [
  | inl (u, made) ↦ check_types-IsLate params out e (rw made at h)
  | inr (x, made) ↦ check_value-IsLate p (lookup p.name out) e (ground arith)
]

IsArgument-declared :
    (ps : Parsers) (params : List ParamSpec) (a : Text × Value)
    → IsArgument ps params a
    → is_param params a.0 ≡ true
IsArgument-declared ps params a (spec, found, _) = find_param-is_param params a.0 spec found

-- A call whose arguments are all named and declared fails late or not at all.
bind_arguments-IsLate :
    (call : CallExpression) (params : List ParamSpec) (e : BindError)
    → call.positional_args ≡ []
    → All (λ a. is_param params a.0 ≡ true) call.named_args
    → bind_arguments call params ≡ err e
    → IsLate e
unfolding bind_arguments bind_positional
bind_arguments-IsLate call params e none_given d h =
    let few : ltb (length params) 0 ≡ false = ground arith in
    let h1 = rw few at (rw none_given at h) in
    elim (Result-cases (bind_named call.named_args params [])) [
      | inr (x, f) ↦ bind_named-IsLate call.named_args params [] e d (ground arith)
      | inl (named, f) ↦ elim (Result-cases (fill_defaults params named)) [
        | inr (x, g) ↦ fill_defaults-IsLate params named e (ground arith)
        | inl (out, g) ↦ check_types-IsLate params out e (ground arith)
      ]
    ]

-- Binding a call that was parsed from the command line for the same parameters never fails for an
-- unknown argument or too many positional ones.
pub bind_arguments-parse_cli_args :
    (ps : Parsers) (command : Text) (raw_args : List Text) (params : List ParamSpec)
    (call : CallExpression) (e : BindError)
    → parse_cli_args ps command raw_args params ≡ ok call
    → bind_arguments call params ≡ err e
    → IsLate e
bind_arguments-parse_cli_args ps command raw_args params call e h b =
    let parsed = parse_cli_args-IsParsed ps command raw_args params call h in
    bind_arguments-IsLate call params e parsed.positional
      (All-map _ _ call.named_args (IsArgument-declared ps params) parsed.named) b

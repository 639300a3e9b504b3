-- ===== src/Expression/Binder/Typed.antt =====
-- What `bind_arguments` of src/expression/binder.rs guarantees of the arguments that it returns.
use earl.Prelude.{
  subst, ℕ, ◌<◌, ◌≤◌, ◌^◌, Bool, true, ◌≡◌, refl, ◌⊎◌, inl, inr, some, List, [], ◌∷◌, arith, ltb,
  All, All-map, Bool-cases, length, Result, ok, err, ◌>>=◌, ◌>>◌, bind-eq_ok, >>_iff,
}
use earl.Text.{Text}
use earl.Text.Keys.{Map, lookup}
use earl.Json.{
  Value, Items, Fields, null, bool, number, string, array, object, Number, pos_int, neg_int,
  is_null, is_i64, is_number,
}
use earl.Schema.{ParamType, ParamSpec}
use earl.Expression.{CallExpression}
use earl.Expression.Binder.{
  BindError, matches_type, bind_positional, bind_named, fill_defaults, check_value, check_types,
  bind_arguments,
}
use earl.Expression.Binder.Loops.{
  Extends, BindsOnly, BoundInOrder, IsSupplied, bind_positional-BindsOnly,
  bind_positional-BoundInOrder, bind_named-Extends, bind_named-BindsOnly, bind_named-binds,
  fill_defaults-Extends, fill_defaults-BindsOnly, fill_defaults-IsSupplied, params_declared,
}

-- The values of a parameter type.
abbrev pub HasType : ParamType → Value → Type 0
HasType ParamType.string v = (s : Text) × (v ≡ string s)
HasType ParamType.integer v =
    ((n : ℕ) × (v ≡ number (pos_int n)) × (n < 2 ^ 63)) ⊎ ((n : ℕ) × (v ≡ number (neg_int n)))
HasType ParamType.number v = (n : Number) × (v ≡ number n)
HasType ParamType.boolean v = (b : Bool) × (v ≡ bool b)
HasType ParamType.null v = v ≡ null
HasType ParamType.array v = (vs : Items) × (v ≡ array vs)
HasType ParamType.object v = (fs : Fields) × (v ≡ object fs)

i64_inv : (v : Value) → is_i64 v ≡ true → HasType ParamType.integer v
i64_inv (number (pos_int n)) h = inl (n, refl, ground arith)
i64_inv (number (neg_int n)) h = inr (n, refl)
i64_inv _ h = cc

number_inv : (v : Value) → is_number v ≡ true → HasType ParamType.number v
number_inv (number n) h = (n, refl)
number_inv _ h = cc

pub matches_type-HasType : (v : Value) (t : ParamType) → matches_type v t ≡ true → HasType t v
unfolding matches_type
matches_type-HasType v ParamType.string h = ground arith
matches_type-HasType v ParamType.integer h = i64_inv v h
matches_type-HasType v ParamType.number h = number_inv v h
matches_type-HasType v ParamType.boolean h = ground arith
matches_type-HasType v ParamType.null h = ground arith
matches_type-HasType v ParamType.array h = ground arith
matches_type-HasType v ParamType.object h = ground arith

-- Absent, null, or of the parameter's type.
abbrev pub FitsType : Map Value → ParamSpec → Type 0
FitsType out p = (v : Value) → lookup p.name out ≡ some v → (v ≡ null) ⊎ HasType p.type v

null_inv : (v : Value) → is_null v ≡ true → v ≡ null
null_inv null h = refl
null_inv _ h = cc

check_value-FitsType :
    (p : ParamSpec) (v : Value) → check_value p (some v) ≡ ok tt → (v ≡ null) ⊎ HasType p.type v
unfolding check_value
check_value-FitsType p v h = elim (Bool-cases (is_null v)) [
  | inl n ↦ inl (null_inv v n)
  | inr n ↦ inr (matches_type-HasType v p.type (ground arith))
]

check_types-FitsType :
    (params : List ParamSpec) (out : Map Value)
    → check_types params out ≡ ok tt
    → All (FitsType out) params
unfolding check_types
check_types-FitsType [] out h = tt
check_types-FitsType (p ∷ params) out h =
    let (here, rest) = (>>_iff (check_value p (lookup p.name out)) (check_types params out)).0 h in
    (
      λ v e. check_value-FitsType p v (subst (λ o. check_value p o ≡ ok tt) e here),
      check_types-FitsType params out rest,
    )

-- What a successful binding of `call` to `params` has established of its result.
pub record IsBound (call : CallExpression) (params : List ParamSpec) (out : Map Value)
    : Type 0 where
  pub declared : BindsOnly params out
  pub positional : BoundInOrder out call.positional_args params
  pub named : All (λ a. lookup a.0 out ≡ some a.1) call.named_args
  pub supplied : All (IsSupplied out) params
  pub typed : All (FitsType out) params

module _ (call : CallExpression) (params : List ParamSpec) where
  -- The stages of the function behind its guard.
  abbrev finish : Map Value → Result BindError (Map Value)
  finish out = check_types params out >> ok out

  abbrev after_named : Map Value → Result BindError (Map Value)
  after_named named = fill_defaults params named >>= finish

  abbrev after_positional : Map Value → Result BindError (Map Value)
  after_positional given = bind_named call.named_args params given >>= after_named

  finish-IsBound :
      (given named out final : Map Value)
      → length call.positional_args ≤ length params
      → bind_positional call.positional_args params [] ≡ ok given
      → bind_named call.named_args params given ≡ ok named
      → fill_defaults params named ≡ ok out
      → finish out ≡ ok final
      → IsBound call params final
  finish-IsBound given named out final l pos nam fill done =
      let (checked, same) = finish_inv in
      subst (IsBound call params) same (record {
        declared =
            fill_defaults-BindsOnly params params named out (params_declared params)
              (bind_named-BindsOnly call.named_args params given named
                (bind_positional-BindsOnly params call.positional_args params [] given
                  (params_declared params) nothing_bound pos)
                nam)
              fill;
        positional =
            bind_positional-BoundInOrder call.positional_args params [] given out l pos
              (λ k v e. kept k v (bind_named-Extends call.named_args params given named nam k v e));
        named =
            All-map _ _ call.named_args (λ a e. kept a.0 a.1 e)
              (bind_named-binds call.named_args params given named nam);
        supplied = fill_defaults-IsSupplied params named out fill;
        typed = check_types-FitsType params out checked;
      })
    where
      finish_inv : (check_types params out ≡ ok tt) × (out ≡ final)
      finish_inv = elim_finish (check_types params out) done
        where
          elim_finish :
              (r : Result BindError (Unit {0}))
              → (r >> ok out) ≡ ok final
              → (r ≡ ok tt) × (out ≡ final)
          elim_finish (ok tt) e = (refl, ground arith)
          elim_finish (err x) e = cc

      nothing_bound : BindsOnly params []
      nothing_bound k v e = unfold lookup in cc

      kept : Extends named out
      kept = fill_defaults-Extends params named out fill

  -- Arguments that are bound without an error satisfy every promise of `IsBound`: only declared
  -- parameters have a value, the given arguments keep theirs, each required parameter has one, and
  -- each value is null or of the parameter's type.
  pub bind_arguments-IsBound :
      (out : Map Value) → bind_arguments call params ≡ ok out → IsBound call params out
  unfolding bind_arguments
  bind_arguments-IsBound out h =
      elim (Bool-cases (ltb (length params) (length call.positional_args))) [
        | inl many ↦ absurd (ground arith)
        | inr few ↦
            (let (given, pos, h1) =
                bind-eq_ok (bind_positional call.positional_args params []) after_positional
                  (rw few at h) in
              let (named, nam, h2) =
                bind-eq_ok (bind_named call.named_args params given) after_named h1 in
              let (filled, fill, done) = bind-eq_ok (fill_defaults params named) finish h2 in
              finish-IsBound given named filled out (ground arith) pos nam fill done)
      ]

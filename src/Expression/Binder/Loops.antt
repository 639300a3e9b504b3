-- ===== src/Expression/Binder/Loops.antt =====
-- What the loops of src/expression/binder.rs do to the map `out`: they only add bindings, and only
-- for declared parameters.
use earl.Prelude.{
  subst, ◌≤◌, true, false, ◌≡◌, ◌≢◌, ◌⊎◌, inl, inr, none, some, List, [], ◌∷◌, arith, any, All,
  All-map, Bool-cases, Option-cases, length, ok, bind-eq_ok,
}
use earl.Text.{Text, text_eq}
use earl.Text.Laws.{text_eq_iff, text_eq_refl}
use earl.Text.Keys.{Map, lookup, contains_key, insert, lookup-insert}
use earl.Json.{Value}
use earl.Schema.{ParamSpec}
use earl.Expression.Binder.{
  insert_new, bind_positional, is_param, bind_named, fill_default, fill_defaults,
}

-- Every binding of the first map is one of the second.
abbrev pub Extends : Map Value → Map Value → Type 0
Extends out out' = (k : Text) (v : Value) → lookup k out ≡ some v → lookup k out' ≡ some v

-- Only declared parameters are bound.
abbrev pub BindsOnly : List ParamSpec → Map Value → Type 0
BindsOnly params out = (k : Text) (v : Value) → lookup k out ≡ some v → is_param params k ≡ true

pub insert_new_inv :
    (name : Text) (value : Value) (out out' : Map Value)
    → insert_new name value out ≡ ok out'
    → (lookup name out ≡ none) × (insert name value out ≡ out')
unfolding insert_new contains_key
insert_new_inv name value out out' h = elim (Option-cases (lookup name out)) [
  | inl e ↦ (e, ground arith)
  | inr (v, e) ↦ absurd (ground arith)
]

lookup-insert_self :
    (name : Text) (value : Value) (out : Map Value)
    → lookup name (insert name value out) ≡ some value
lookup-insert_self name value out =
    ground (arith, lookup-insert name name value out, text_eq_refl name)

insert-Extends :
    (name : Text) (value : Value) (out : Map Value)
    → lookup name out ≡ none
    → Extends out (insert name value out)
insert-Extends name value out fresh k v h =
    ground (arith, lookup-insert name k value out, text_eq_iff name k)

insert-BindsOnly :
    (params : List ParamSpec) (name : Text) (value : Value) (out : Map Value)
    → is_param params name ≡ true
    → BindsOnly params out
    → BindsOnly params (insert name value out)
insert-BindsOnly params name value out p b k v h = elim (Bool-cases (text_eq name k)) [
  | inl e ↦ subst (λ n. is_param params n ≡ true) ((text_eq_iff name k).0 e) p
  | inr e ↦ b k v (ground (arith, lookup-insert name k value out))
]

pub bind_positional-Extends :
    (values : List Value) (params : List ParamSpec) (out out' : Map Value)
    → bind_positional values params out ≡ ok out'
    → Extends out out'
unfolding bind_positional
bind_positional-Extends [] params out out' h k v e = ground arith
bind_positional-Extends (value ∷ values) [] out out' h k v e = ground arith
bind_positional-Extends (value ∷ values) (p ∷ params) out out' h k v e =
    let (mid, made, rest) =
      bind-eq_ok (insert_new p.name value out) (bind_positional values params) h in
    let (fresh, same) = insert_new_inv p.name value out mid made in
    bind_positional-Extends values params mid out' rest k v
      (subst (λ m. lookup k m ≡ some v) same (insert-Extends p.name value out fresh k v e))

pub bind_positional-BindsOnly :
    (all_params : List ParamSpec) (values : List Value) (params : List ParamSpec)
    (out out' : Map Value)
    → All (λ p. is_param all_params p.name ≡ true) params
    → BindsOnly all_params out
    → bind_positional values params out ≡ ok out'
    → BindsOnly all_params out'
unfolding bind_positional
bind_positional-BindsOnly all_params [] params out out' d b h = λ k v e. b k v (ground arith)
bind_positional-BindsOnly all_params (value ∷ values) [] out out' d b h =
    λ k v e. b k v (ground arith)
bind_positional-BindsOnly all_params (value ∷ values) (p ∷ params) out out' (d, ds) b h =
    let (mid, made, rest) =
      bind-eq_ok (insert_new p.name value out) (bind_positional values params) h in
    let (fresh, same) = insert_new_inv p.name value out mid made in
    bind_positional-BindsOnly all_params values params mid out' ds
      (subst (BindsOnly all_params) same (insert-BindsOnly all_params p.name value out d b)) rest

pub bind_named-Extends :
    (named : List (Text × Value)) (params : List ParamSpec) (out out' : Map Value)
    → bind_named named params out ≡ ok out'
    → Extends out out'
unfolding bind_named
bind_named-Extends [] params out out' h k v e = ground arith
bind_named-Extends ((name, value) ∷ named) params out out' h k v e =
    elim (Bool-cases (is_param params name)) [
      | inl p ↦
          (let (mid, made, rest) =
              bind-eq_ok (insert_new name value out) (bind_named named params) (rw p at h) in
            let (fresh, same) = insert_new_inv name value out mid made in
            bind_named-Extends named params mid out' rest k v
              (subst (λ m. lookup k m ≡ some v) same (insert-Extends name value out fresh k v e)))
      | inr n ↦ absurd (ground arith)
    ]

pub bind_named-BindsOnly :
    (named : List (Text × Value)) (params : List ParamSpec) (out out' : Map Value)
    → BindsOnly params out
    → bind_named named params out ≡ ok out'
    → BindsOnly params out'
unfolding bind_named
bind_named-BindsOnly [] params out out' b h = λ k v e. b k v (ground arith)
bind_named-BindsOnly ((name, value) ∷ named) params out out' b h =
    elim (Bool-cases (is_param params name)) [
      | inl p ↦
          (let (mid, made, rest) =
              bind-eq_ok (insert_new name value out) (bind_named named params) (rw p at h) in
            let (fresh, same) = insert_new_inv name value out mid made in
            bind_named-BindsOnly named params mid out'
              (subst (BindsOnly params) same (insert-BindsOnly params name value out p b)) rest)
      | inr n ↦ absurd (ground arith)
    ]

-- Each given pair is bound in the result.
pub bind_named-binds :
    (named : List (Text × Value)) (params : List ParamSpec) (out out' : Map Value)
    → bind_named named params out ≡ ok out'
    → All (λ a. lookup a.0 out' ≡ some a.1) named
unfolding bind_named
bind_named-binds [] params out out' h = tt
bind_named-binds ((name, value) ∷ named) params out out' h =
    elim (Bool-cases (is_param params name)) [
      | inl p ↦
          (let (mid, made, rest) =
              bind-eq_ok (insert_new name value out) (bind_named named params) (rw p at h) in
            let (fresh, same) = insert_new_inv name value out mid made in
            (
              bind_named-Extends named params mid out' rest name value (
                  subst (λ m. lookup name m ≡ some value) same (lookup-insert_self name value out)),
              bind_named-binds named params mid out' rest,
            ))
      | inr n ↦ absurd (ground arith)
    ]

-- Each positional value is bound to the parameter at its place.
abbrev pub BoundInOrder : Map Value → List Value → List ParamSpec → Type 0
BoundInOrder out [] params = Unit
BoundInOrder out (value ∷ values) [] = ⊥
BoundInOrder out (value ∷ values) (p ∷ params) =
    (lookup p.name out ≡ some value) × BoundInOrder out values params

pub bind_positional-BoundInOrder :
    (values : List Value) (params : List ParamSpec) (out out' final : Map Value)
    → length values ≤ length params
    → bind_positional values params out ≡ ok out'
    → Extends out' final
    → BoundInOrder final values params
unfolding bind_positional
bind_positional-BoundInOrder [] params out out' final l h x = tt
bind_positional-BoundInOrder (value ∷ values) [] out out' final l h x = elim l [ ]
bind_positional-BoundInOrder (value ∷ values) (p ∷ params) out out' final l h x =
    let (mid, made, rest) =
      bind-eq_ok (insert_new p.name value out) (bind_positional values params) h in
    let (fresh, same) = insert_new_inv p.name value out mid made in
    (
      x p.name value (
          bind_positional-Extends values params mid out' rest p.name value
            (subst (λ m. lookup p.name m ≡ some value) same (lookup-insert_self p.name value out))),
      bind_positional-BoundInOrder values params mid out' final (omega arith) rest x,
    )

-- A round leaves the map alone, if the parameter is bound or optional, or binds its default.
fill_default_inv :
    (p : ParamSpec) (out out' : Map Value)
    → fill_default p out ≡ ok out'
    → ((out ≡ out') × ((lookup p.name out ≢ none) ⊎ (p.required ≡ false)))
      ⊎ ((d : Value) × (p.default ≡ some d)
          × (lookup p.name out ≡ none)
          × (insert p.name d out ≡ out'))
unfolding fill_default contains_key
fill_default_inv p out out' h = elim (Option-cases (lookup p.name out)) [
  | inr (v, e) ↦ inl (ground arith, inl (λ n. cc))
  | inl e ↦ elim (Option-cases p.default) [
    | inr (d, f) ↦ inr (d, f, e, ground arith)
    | inl f ↦ elim (Bool-cases p.required) [
      | inl r ↦ absurd (ground arith)
      | inr r ↦ inl (ground arith, inr r)
    ]
  ]
]

fill_default-Extends :
    (p : ParamSpec) (out out' : Map Value) → fill_default p out ≡ ok out' → Extends out out'
fill_default-Extends p out out' h = elim (fill_default_inv p out out' h) [
  | inl (same, _) ↦ subst (Extends out) same (λ k v e. e)
  | inr (d, _, fresh, same) ↦ subst (Extends out) same (insert-Extends p.name d out fresh)
]

pub fill_defaults-Extends :
    (params : List ParamSpec) (out out' : Map Value)
    → fill_defaults params out ≡ ok out'
    → Extends out out'
unfolding fill_defaults
fill_defaults-Extends [] out out' h k v e = ground arith
fill_defaults-Extends (p ∷ params) out out' h k v e =
    let (mid, made, rest) = bind-eq_ok (fill_default p out) (fill_defaults params) h in
    fill_defaults-Extends params mid out' rest k v (fill_default-Extends p out mid made k v e)

fill_default-BindsOnly :
    (params : List ParamSpec) (p : ParamSpec) (out out' : Map Value)
    → is_param params p.name ≡ true
    → BindsOnly params out
    → fill_default p out ≡ ok out'
    → BindsOnly params out'
fill_default-BindsOnly params p out out' d b h = elim (fill_default_inv p out out' h) [
  | inl (same, _) ↦ subst (BindsOnly params) same b
  | inr (v, _, _, same) ↦ subst (BindsOnly params) same (insert-BindsOnly params p.name v out d b)
]

pub fill_defaults-BindsOnly :
    (all_params params : List ParamSpec) (out out' : Map Value)
    → All (λ p. is_param all_params p.name ≡ true) params
    → BindsOnly all_params out
    → fill_defaults params out ≡ ok out'
    → BindsOnly all_params out'
unfolding fill_defaults
fill_defaults-BindsOnly all_params [] out out' d b h = λ k v e. b k v (ground arith)
fill_defaults-BindsOnly all_params (p ∷ params) out out' (d, ds) b h =
    let (mid, made, rest) = bind-eq_ok (fill_default p out) (fill_defaults params) h in
    fill_defaults-BindsOnly all_params params mid out' ds
      (fill_default-BindsOnly all_params p out mid d b made) rest

-- A bound parameter, or one that may be absent.
abbrev pub IsSupplied : Map Value → ParamSpec → Type 0
IsSupplied out p = ((v : Value) × (lookup p.name out ≡ some v)) ⊎ (p.required ≡ false)

fill_default-IsSupplied :
    (p : ParamSpec) (out out' : Map Value) → fill_default p out ≡ ok out' → IsSupplied out' p
fill_default-IsSupplied p out out' h = elim (fill_default_inv p out out' h) [
  | inl (same, inl bound) ↦ elim (Option-cases (lookup p.name out)) [
    | inl e ↦ absurd (bound e)
    | inr (v, e) ↦ inl (v, subst (λ m. lookup p.name m ≡ some v) same e)
  ]
  | inl (same, inr optional) ↦ inr optional
  | inr (d, _, _, same) ↦
      inl (d, subst (λ m. lookup p.name m ≡ some d) same (lookup-insert_self p.name d out))
]

pub fill_defaults-IsSupplied :
    (params : List ParamSpec) (out out' : Map Value)
    → fill_defaults params out ≡ ok out'
    → All (IsSupplied out') params
unfolding fill_defaults
fill_defaults-IsSupplied [] out out' h = tt
fill_defaults-IsSupplied (p ∷ params) out out' h =
    let (mid, made, rest) = bind-eq_ok (fill_default p out) (fill_defaults params) h in
    (
      elim (fill_default-IsSupplied p out mid made) [
        | inl (v, e) ↦ inl (v, fill_defaults-Extends params mid out' rest p.name v e)
        | inr optional ↦ inr optional
      ],
      fill_defaults-IsSupplied params mid out' rest,
    )

-- Every parameter of a list is declared in it.
declared_more :
    (q : ParamSpec) (all_params params : List ParamSpec)
    → All (λ p. is_param all_params p.name ≡ true) params
    → All (λ p. is_param (q ∷ all_params) p.name ≡ true) params
unfolding any
declared_more q all_params params = All-map _ _ params (λ p h. ground arith)

pub params_declared : (params : List ParamSpec) → All (λ p. is_param params p.name ≡ true) params
unfolding any
params_declared [] = tt
params_declared (p ∷ params) =
    (ground (arith, text_eq_refl p.name), declared_more p params params (params_declared params))

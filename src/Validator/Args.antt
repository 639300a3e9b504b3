-- ===== src/Validator/Args.antt =====
-- Parameters and references to them: src/template/validator.rs.
use earl.Prelude.{
  ℕ, Bool, false, ◌≡◌, refl, ◌≢◌, ◌↔◌, inl, inr, List, [], ◌∷◌, arith, All, All-map, Bool-cases, ok,
  each, each_iff, any,
}
use earl.Text.{Text, text_eq, is_blank}
use earl.Text.Laws.{text_eq_iff}
use earl.Schema.{ParamSpec}
use earl.Schema.Commands.{CommandTemplate}
use earl.Validator.Scan.{extract_args_refs}
use earl.Validator.Parts.{includes}
use earl.Validator.Commands.{
  validate_params_from, validate_params, template_strings, param_names, check_arg,
  validate_template_args,
}
use earl.Validator.Secrets.{Declared, includes_iff}

-- No two parameters share a name.
abbrev pub DistinctNames : List ParamSpec → Type 0
DistinctNames [] = Unit
DistinctNames (p ∷ params) = All (λ q. p.name ≢ q.name) params × DistinctNames params

includes_cons :
    (n : Text) (seen : List Text) (name : Text)
    → (includes (n ∷ seen) name ≡ false) ↔ ((n ≢ name) × (includes seen name ≡ false))
unfolding includes any
includes_cons n seen name = elim (Bool-cases (text_eq n name)) [
  | inl same ↦ (λ h. absurd (ground arith), λ (d, h). absurd (d ((text_eq_iff n name).0 same)))
  | inr other ↦
      (λ h. (λ e. (let y = (text_eq_iff n name).1 e in cc), ground arith), λ (d, h). ground arith)
]

includes_nil : (name : Text) → includes [] name ≡ false
unfolding includes any
includes_nil name = refl

params_from :
    (command_name : Text) (seen : List Text) (params : List ParamSpec)
    → validate_params_from command_name seen params ≡ ok tt
    → All (λ p. is_blank p.name ≡ false) params
      × All (λ p. includes seen p.name ≡ false) params
      × DistinctNames params
unfolding validate_params_from
params_from command_name seen [] h = (tt, tt, tt)
params_from command_name seen (p ∷ params) h =
    let (named, fresh, distinct) = params_from command_name (p.name ∷ seen) params (ground arith) in
    (
      (ground arith, named),
      (ground arith, All-map _ _ params (λ q f. ((includes_cons p.name seen q.name).0 f).1) fresh),
      (All-map _ _ params (λ q f. ((includes_cons p.name seen q.name).0 f).0) fresh, distinct),
    )

All-both {ℓ} :
    {A : Type ℓ} (P Q R : A → Type 0) (xs : List A)
    → ((x : A) → P x → Q x → R x)
    → All P xs
    → All Q xs
    → All R xs
All-both P Q R [] f p q = tt
All-both P Q R (x ∷ xs) f (p, ps) (q, qs) = (f x p q, All-both P Q R xs f ps qs)

params_back :
    (command_name : Text) (seen : List Text) (params : List ParamSpec)
    → All (λ p. is_blank p.name ≡ false) params
    → All (λ p. includes seen p.name ≡ false) params
    → DistinctNames params
    → validate_params_from command_name seen params ≡ ok tt
unfolding validate_params_from
params_back command_name seen [] b f d = refl
params_back command_name seen (p ∷ params) (b, bs) (f, fs) (d, ds) =
    let rest =
      params_back command_name (p.name ∷ seen) params bs
        (All-both _ _ _ params (λ q x y. (includes_cons p.name seen q.name).1 (x, y)) d fs) ds in
    ground arith

nothing_seen : (params : List ParamSpec) → All (λ p. includes [] p.name ≡ false) params
nothing_seen [] = tt
nothing_seen (p ∷ params) = (includes_nil p.name, nothing_seen params)

-- The parameters of a command pass exactly when each has a name that is not blank and no two share
-- a name.
validate_params_iff :
    (command_name : Text) (params : List ParamSpec)
    → (validate_params command_name params ≡ ok tt)
      ↔ (All (λ p. is_blank p.name ≡ false) params × DistinctNames params)
unfolding validate_params
validate_params_iff command_name params = (
  λ h. (let (b, _, d) = params_from command_name [] params h in (b, d)),
  λ (b, d). params_back command_name [] params b (nothing_seen params) d,
)

module _ (is_alphanumeric : ℕ → Bool) (command_name : Text) where
  check_arg_iff :
      (declared : List Text) (arg_ref : Text)
      → (check_arg is_alphanumeric command_name declared arg_ref ≡ ok tt)
        ↔ Declared declared arg_ref
  unfolding check_arg
  check_arg_iff declared arg_ref =
      let (to, from) = includes_iff declared arg_ref in
      (λ h. to (ground arith), λ d. (let y = from d in ground arith))

  refs_iff :
      (declared refs : List Text)
      → (each (check_arg is_alphanumeric command_name declared) refs ≡ ok tt)
        ↔ All (Declared declared) refs
  refs_iff declared refs =
      let (to, from) = each_iff (check_arg is_alphanumeric command_name declared) refs in
      (
        λ h. All-map _ _ refs (λ r. (check_arg_iff declared r).0) (to h),
        λ h. from (All-map _ _ refs (λ r. (check_arg_iff declared r).1) h),
      )

  -- The references pass exactly when every `args.` name that the scan finds in a template string of
  -- the command, of its operation, its output or an environment's override, is a parameter's.
  validate_template_args_iff :
      (cmd : CommandTemplate)
      → (validate_template_args is_alphanumeric command_name cmd ≡ ok tt)
        ↔ All
            (λ s. All (Declared (param_names cmd.params)) (extract_args_refs is_alphanumeric s))
            (template_strings cmd)
  unfolding validate_template_args
  validate_template_args_iff cmd =
      let (to, from) = each_iff _ (template_strings cmd) in
      (
        λ h.
            All-map _ _ (template_strings cmd)
              (λ s. (refs_iff (param_names cmd.params) (extract_args_refs is_alphanumeric s)).0)
              (to h),
        λ h. from (
            All-map _ _ (template_strings cmd)
              (λ s. (refs_iff (param_names cmd.params) (extract_args_refs is_alphanumeric s)).1) h),
      )

-- ===== src/Policy/Decision.antt =====
-- The deny-overrides decision of `evaluate` in src/mcp/policy.rs, stated without its loop.
use mathlib.Core.List.{Perm, Permᴰ}
use mathlib.Core.Logic.{∥∥₁_elim}
use earl.Prelude.{
  Bool, true, false, not, ◌&&◌, ◌||◌, ◌≡◌, refl, ap, ◌∙◌, ◌↔◌, ◌≢◌, inl, inr, Option, none, some,
  List, [], ◌∷◌, arith, if◌then◌else◌, All, Any, any, any_iff, Bool-cases, Any-map,
}
use earl.Text.{Text}
use earl.Policy.{
  CommandMode, PolicyMode, PolicyEffect, PolicyRule, PolicyDecision, matches_any, mode_val, mode_eq,
  admits_mode, evaluate_from, evaluate,
}
use earl.Policy.Glob.{Accepts, matches_any_iff}

mode_eq_iff : (a b : PolicyMode) → (mode_eq a b ≡ true) ↔ (a ≡ b)
unfolding mode_eq
mode_eq_iff PolicyMode.read b = ground arith
mode_eq_iff PolicyMode.write b = ground arith

abbrev pub AdmitsMode : Option (List PolicyMode) → CommandMode → Type 0
AdmitsMode none mode = Unit
AdmitsMode (some modes) mode = Any (λ m. m ≡ mode_val mode) modes

admits_mode_iff :
    (modes : Option (List PolicyMode)) (mode : CommandMode)
    → (admits_mode modes mode ≡ true) ↔ AdmitsMode modes mode
unfolding admits_mode
admits_mode_iff none mode = (λ _. tt, λ _. refl)
admits_mode_iff (some modes) mode =
    let (to, from) = any_iff (λ m. mode_eq m (mode_val mode)) modes in
    (
      λ h. Any-map _ _ modes (λ m. (mode_eq_iff m (mode_val mode)).0) (to h),
      λ h. from (Any-map _ _ modes (λ m. (mode_eq_iff m (mode_val mode)).1) h),
    )

is_deny : PolicyEffect → Bool
is_deny PolicyEffect.deny = true
is_deny PolicyEffect.allow = false

module _ (subject tool_key : Text) (tool_mode : CommandMode) where
  -- A rule applies when one of its subjects, one of its tools and its modes fit the call.
  abbrev pub Applies : PolicyRule → Type 0
  Applies p =
      Any (λ pattern. Accepts pattern subject) p.subjects
      × Any (λ pattern. Accepts pattern tool_key) p.tools
      × AdmitsMode p.modes tool_mode

  applies : PolicyRule → Bool
  applies p =
      matches_any p.subjects subject
      && matches_any p.tools tool_key
      && admits_mode p.modes tool_mode

  applies_iff : (p : PolicyRule) → (applies p ≡ true) ↔ Applies p
  unfolding applies
  applies_iff p = ground (
    arith,
    matches_any_iff p.subjects subject,
    matches_any_iff p.tools tool_key,
    admits_mode_iff p.modes tool_mode,
  )

  denied : PolicyRule → Bool
  denied p = applies p && is_deny p.effect

  allowed : PolicyRule → Bool
  allowed p = applies p && not (is_deny p.effect)

  -- The decision as a function of two tests on the whole list.
  evaluate_from_lem :
      (has_allow : Bool) (policies : List PolicyRule)
      → evaluate_from has_allow policies subject tool_key tool_mode ≡ (
          if any denied policies
          then PolicyDecision.deny
          else if has_allow || any allowed policies
          then PolicyDecision.allow
          else PolicyDecision.deny)
  unfolding evaluate_from denied allowed applies any is_deny
  evaluate_from_lem has_allow [] = ground arith
  evaluate_from_lem has_allow (p ∷ policies) =
      ground (arith, evaluate_from_lem has_allow policies, evaluate_from_lem true policies)

  evaluate_lem :
      (policies : List PolicyRule)
      → evaluate policies subject tool_key tool_mode ≡ (
          if any denied policies
          then PolicyDecision.deny
          else if any allowed policies
          then PolicyDecision.allow
          else PolicyDecision.deny)
  unfolding evaluate
  evaluate_lem policies = evaluate_from_lem false policies

  denied_iff : (p : PolicyRule) → (denied p ≡ false) ↔ (Applies p → p.effect ≡ PolicyEffect.allow)
  unfolding denied is_deny
  denied_iff p = elim (Bool-cases (applies p)) [
    | inl a ↦ (λ h _. ground arith, λ f. let e = f ((applies_iff p).0 a) in ground arith)
    | inr n ↦ (λ h a. let y = (applies_iff p).1 a in cc, λ f. ground arith)
  ]

  allowed_iff :
      (p : PolicyRule) → (allowed p ≡ true) ↔ (Applies p × (p.effect ≡ PolicyEffect.allow))
  unfolding allowed is_deny
  allowed_iff p =
      let (to, from) = applies_iff p in
      (λ h. (to (ground arith), ground arith), λ (a, e). let y = from a in ground arith)

  none_denied_iff :
      (policies : List PolicyRule)
      → (any denied policies ≡ false)
        ↔ All (λ p. Applies p → p.effect ≡ PolicyEffect.allow) policies
  unfolding any
  none_denied_iff [] = (λ _. tt, λ _. refl)
  none_denied_iff (p ∷ policies) =
      let (to, from) = denied_iff p in
      let (down, up) = none_denied_iff policies in
      (
        λ h. (to (ground arith), down (ground arith)),
        λ (f, g). let a = from f in let b = up g in ground arith,
      )

  some_allowed_iff :
      (policies : List PolicyRule)
      → (any allowed policies ≡ true)
        ↔ Any (λ p. Applies p × (p.effect ≡ PolicyEffect.allow)) policies
  some_allowed_iff policies =
      let (to, from) = any_iff allowed policies in
      (
        λ h. Any-map _ _ policies (λ p. (allowed_iff p).0) (to h),
        λ h. from (Any-map _ _ policies (λ p. (allowed_iff p).1) h),
      )

  -- A call is allowed exactly when some rule that applies to the subject, the tool and the mode
  -- allows it and every rule that applies allows it: one deny overrides, and no match denies.
  pub evaluate-eq-allow_iff :
      (policies : List PolicyRule)
      → (evaluate policies subject tool_key tool_mode ≡ PolicyDecision.allow) ↔ (
          Any (λ p. Applies p × (p.effect ≡ PolicyEffect.allow)) policies
          × All (λ p. Applies p → p.effect ≡ PolicyEffect.allow) policies)
  evaluate-eq-allow_iff policies =
      let (some_to, some_from) = some_allowed_iff policies in
      let (none_to, none_from) = none_denied_iff policies in
      let same = evaluate_lem policies in
      (
        λ h. (some_to (ground arith), none_to (ground arith)),
        λ (a, n). let x = some_from a in let y = none_from n in ground arith,
      )

-- Reordering a list does not change whether one of its elements passes a test.
any-perm {ℓ} : {A : Type ℓ} (p : A → Bool) {xs ys : List A} → Permᴰ xs ys → any p xs ≡ any p ys
unfolding any
any-perm p Permᴰ.nil = refl
any-perm p (Permᴰ.cons e d) = ground (arith, any-perm p d, ap p e)
any-perm p (Permᴰ.swap e f) = ground (arith, ap p e, ap p f)
any-perm p (Permᴰ.trans d e) = any-perm p d ∙ any-perm p e

deny-ne-allow : PolicyDecision.deny ≢ PolicyDecision.allow
deny-ne-allow e = cc

PolicyDecision-set : IsSet PolicyDecision
PolicyDecision-set = hlevel

evaluate-permᴰ :
    {ps qs : List PolicyRule} (subject tool_key : Text) (tool_mode : CommandMode)
    → Permᴰ ps qs
    → evaluate ps subject tool_key tool_mode ≡ evaluate qs subject tool_key tool_mode
evaluate-permᴰ {ps} {qs} subject tool_key tool_mode d = ground (
  arith,
  evaluate_lem subject tool_key tool_mode ps,
  evaluate_lem subject tool_key tool_mode qs,
  any-perm (denied subject tool_key tool_mode) d,
  any-perm (allowed subject tool_key tool_mode) d,
)

-- The order of the rules does not matter: any reordering gives every call the same decision.
pub evaluate-perm :
    (ps qs : List PolicyRule) (subject tool_key : Text) (tool_mode : CommandMode)
    → Perm ps qs
    → evaluate ps subject tool_key tool_mode ≡ evaluate qs subject tool_key tool_mode
evaluate-perm ps qs subject tool_key tool_mode h =
    ∥∥₁_elim h (PolicyDecision-set _ _) (evaluate-permᴰ subject tool_key tool_mode)

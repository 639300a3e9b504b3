-- ===== src/Secrets/Attempts.antt =====
-- The attempts of a resolver: require_secret of src/secrets/store.rs.
use earl.Prelude.{
  ℕ, zero, suc, ◌+◌, ◌≤◌, ◌<◌, Bool, true, false, ◌&&◌, ◌≡◌, refl, ap, inl, inr, Bool-cases, Option,
  none, some, Option-cases, List, [], ◌∷◌, length, ltb, Result, Result-cases, ok, err, ok-injective,
  subst, ◌∙◌, sym, Any, arith,
}
use earl.Text.{Text, codes, text_eq, split_once}
use earl.Text.Laws.{text_eq_iff}
use earl.Secrets.{
  SecretResolver, SecretError, Resolution, is_transient, max_attempts, resolve_from,
  resolve_attempts, resolve_scheme, require_secret, stored,
}

abbrev pub is_panic : Result SecretError Text → Bool
is_panic (err SecretError.unreachable) = true
is_panic _ = false

-- Fewer waits than rounds, and no panic.
abbrev Bounded : ℕ → Resolution → Type 0
Bounded rounds (sleeps, result) = (length sleeps < rounds) × (is_panic result ≡ false)

resolve_from-Bounded :
    (resolver : SecretResolver) (key : Text) (rounds attempt : ℕ)
    → attempt + rounds ≡ max_attempts + 1
    → 1 ≤ rounds
    → Bounded rounds (resolve_from resolver key rounds attempt)
unfolding resolve_from
resolve_from-Bounded resolver key zero attempt e h = absurd (omega arith)
resolve_from-Bounded resolver key (suc rounds) attempt e h =
    elim (Result-cases (resolver.resolve attempt key)) [
      | inl (secret, r) ↦ rw (r, resolve_from) (omega arith, refl)
      | inr (msg, r) ↦ elim (Bool-cases (ltb attempt max_attempts && is_transient msg)) [
        | inr last ↦ rw (r, resolve_from, last) (omega arith, refl)
        | inl again ↦
            (let (few, fine) =
                resolve_from-Bounded resolver key rounds (attempt + 1) (omega arith)
                  (ground arith) in
              rw (r, resolve_from, again) (omega arith, fine))
      ]
    ]

-- The secret that is found is the answer of the attempt behind the waits.
Answered : SecretResolver → Text → ℕ → Resolution → Type 0
Answered resolver key attempt (sleeps, result) =
    (secret : Text)
    → result ≡ ok secret
    → resolver.resolve (attempt + length sleeps) key ≡ ok secret

no_secret :
    {e : SecretError} {secret : Text} → ¬ (◌≡◌ {A = Result SecretError Text} (err e) (ok secret))
no_secret h = cc

resolve_from-Answered :
    (resolver : SecretResolver) (key : Text) (rounds attempt : ℕ)
    → Answered resolver key attempt (resolve_from resolver key rounds attempt)
unfolding resolve_from Answered
resolve_from-Answered resolver key zero attempt = λ secret h. absurd (no_secret h)
resolve_from-Answered resolver key (suc rounds) attempt =
    elim (Result-cases (resolver.resolve attempt key)) [
      | inl (found, r) ↦
          rw (r, resolve_from)
            (λ secret h.
              subst (λ n. resolver.resolve n key ≡ ok secret) (omega arith)
                (r ∙ ap ok (ok-injective h)))
      | inr (msg, r) ↦ elim (Bool-cases (ltb attempt max_attempts && is_transient msg)) [
        | inr last ↦ rw (r, resolve_from, last) (λ secret h. absurd (no_secret h))
        | inl again ↦
            rw (r, resolve_from, again)
              (λ secret h.
                subst (λ n. resolver.resolve n key ≡ ok secret) (omega arith)
                  (resolve_from-Answered resolver key rounds (attempt + 1) secret h))
      ]
    ]

module _ (key : Text) where
  -- A resolver of the scheme that answers with the secret at one of its attempts.
  abbrev pub Answers : Text → Text → ℕ → SecretResolver → Type 0
  Answers scheme secret attempt resolver =
      (resolver.scheme ≡ scheme) × (resolver.resolve attempt key ≡ ok secret)

  -- At most two waits and no panic, and a secret that is found comes from a resolver of the scheme.
  abbrev FromScheme : Text → List SecretResolver → Resolution → Type 0
  FromScheme scheme resolvers (sleeps, result) =
      (length sleeps < max_attempts)
      × (is_panic result ≡ false)
      × ((secret : Text)
          → result ≡ ok secret
          → Any (Answers scheme secret (1 + length sleeps)) resolvers)

  later :
      (scheme : Text) (r : SecretResolver) (rs : List SecretResolver) (res : Resolution)
      → FromScheme scheme rs res
      → FromScheme scheme (r ∷ rs) res
  later scheme r rs (sleeps, result) (few, fine, f) = (few, fine, λ secret h. inr (f secret h))

  resolve_scheme-other :
      (scheme : Text) (r : SecretResolver) (rs : List SecretResolver)
      → text_eq r.scheme scheme ≡ false
      → resolve_scheme scheme key (r ∷ rs) ≡ resolve_scheme scheme key rs
  unfolding resolve_scheme
  resolve_scheme-other scheme r rs h = rw h

  resolve_scheme-FromScheme :
      (scheme : Text) (resolvers : List SecretResolver)
      → FromScheme scheme resolvers (resolve_scheme scheme key resolvers)
  unfolding resolve_scheme resolve_attempts Answered
  resolve_scheme-FromScheme scheme [] = (omega arith, refl, λ secret h. absurd (no_secret h))
  resolve_scheme-FromScheme scheme (r ∷ rs) = elim (Bool-cases (text_eq r.scheme scheme)) [
    | inl same ↦
        (let (few, fine) = resolve_from-Bounded r key 3 1 refl (omega arith) in
          rw same (
            few,
            fine,
            λ secret h.
                inl
                  ((text_eq_iff r.scheme scheme).0 same, resolve_from-Answered r key 3 1 secret h),
          ))
    | inr other ↦
        subst (FromScheme scheme (r ∷ rs)) (sym (resolve_scheme-other scheme r rs other))
          (later scheme r rs (resolve_scheme scheme key rs) (resolve_scheme-FromScheme scheme rs))
  ]

  -- Where a secret comes from: from the store for a key without a scheme, or else from a resolver.
  pub data IsOrigin (get_secret_of : Text → Option (Option Text)) (resolvers : List SecretResolver)
      (secret : Text) (waits : ℕ) : Type 0 where
    from_store :
        split_once (codes "://") key ≡ none
        → get_secret_of key ≡ some (some secret)
        → IsOrigin get_secret_of resolvers secret waits
    from_resolver :
        (scheme rest : Text)
        → split_once (codes "://") key ≡ some (scheme, rest)
        → Any (Answers scheme secret (1 + waits)) resolvers
        → IsOrigin get_secret_of resolvers secret waits

stored-ok :
    (key : Text) (o : Option (Option Text)) (secret : Text)
    → stored key o ≡ ok secret
    → o ≡ some (some secret)
stored-ok key none secret h = cc
stored-ok key (some none) secret h = cc
stored-ok key (some (some s)) secret h = ap (λ x. some (some x)) (ok-injective h)

stored-is_panic : (key : Text) (o : Option (Option Text)) → is_panic (stored key o) ≡ false
stored-is_panic key none = refl
stored-is_panic key (some none) = refl
stored-is_panic key (some (some s)) = refl

-- Finding a secret takes at most two waits and never reaches the panic behind the loop; a secret that
-- is found is what the store has for a key without a scheme, or what a resolver of the scheme answers
-- at the attempt behind the waits.
pub require_secret-IsOrigin :
    (get_secret_of : Text → Option (Option Text)) (resolvers : List SecretResolver) (key : Text)
    → (length (require_secret get_secret_of resolvers key).0 ≤ 2)
      × (is_panic (require_secret get_secret_of resolvers key).1 ≡ false)
      × ((secret : Text)
          → (require_secret get_secret_of resolvers key).1 ≡ ok secret
          → IsOrigin key get_secret_of resolvers secret
              (length (require_secret get_secret_of resolvers key).0))
unfolding require_secret
require_secret-IsOrigin get_secret_of resolvers key =
    elim (Option-cases (split_once (codes "://") key)) [
      | inl e ↦
          rw (e, require_secret)
            (
              omega arith,
              stored-is_panic key (get_secret_of key),
              λ secret h. IsOrigin.from_store e (stored-ok key (get_secret_of key) secret h),
            )
      | inr ((scheme, rest), e) ↦
          (let (few, fine, f) = resolve_scheme-FromScheme key scheme resolvers in
            rw (e, require_secret)
              (ground arith, fine, λ secret h. IsOrigin.from_resolver scheme rest e (f secret h)))
    ]

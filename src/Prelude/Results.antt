-- ===== src/Prelude/Results.antt =====
-- `Result<A, E>` with the `?` operator as a bind, and `bail!` under a test as a guard.
use mathlib.Core.Path.{◌≡◌, refl}
use mathlib.Core.Bool.{Bool, true, false}
use mathlib.Core.Logic.{◌↔◌, ◌⊎◌, inl, inr}
use mathlib.Core.Option.{Option, none, some}
use mathlib.Core.List.{List, [], ◌∷◌}
use earl.Prelude.Lists.{All}

pub data Result {ℓ} (E : Type ℓ) (A : Type ℓ) : Type ℓ where
  err : E → Result E A
  ok : A → Result E A

module _ {ℓ} {E A B : Type ℓ} where
  infixl 5 ◌>>=◌
  abbrev pub ◌>>=◌ : Result E A → (A → Result E B) → Result E B
  err refusal >>= tail = err refusal
  ok value >>= tail = tail value

  -- A chain that succeeds has succeeded at its head.
  pub bind-eq_ok :
      (head : Result E A) (tail : A → Result E B) {final : B}
      → (head >>= tail) ≡ ok final
      → (value : A) × (head ≡ ok value) × (tail value ≡ ok final)
  bind-eq_ok (err refusal) tail chain = cc
  bind-eq_ok (ok value) tail chain = (value, refl, chain)

  -- A chain succeeds where its head and its tail do.
  pub bind-ok :
      (head : Result E A) (tail : A → Result E B) {value : A}
      → head ≡ ok value
      → (final : B) × (tail value ≡ ok final)
      → (final : B) × ((head >>= tail) ≡ ok final)
  bind-ok head tail h (final, k) = (final, rw h k)

-- `if test { bail!(e) }`, and a `for` loop whose body ends in `?`.
module _ {E : Type 0} where
  abbrev pub bail_if : Bool → E → Result E (Unit {0})
  bail_if true e = err e
  bail_if false e = ok tt

  infixl 5 ◌>>◌
  abbrev pub ◌>>◌ : {A : Type 0} → Result E (Unit {0}) → Result E A → Result E A
  m >> k = m >>= λ _. k

  pub bail_if_iff : (b : Bool) (e : E) → (bail_if b e ≡ ok tt) ↔ (b ≡ false)
  bail_if_iff true e = (λ h. cc, λ h. cc)
  bail_if_iff false e = (λ _. refl, λ _. refl)

  pub >>_iff : (m k : Result E (Unit {0})) → ((m >> k) ≡ ok tt) ↔ ((m ≡ ok tt) × (k ≡ ok tt))
  >>_iff (ok tt) k = (λ h. (refl, h), λ h. h.1)
  >>_iff (err e) k = (λ h. cc, λ h. cc h.0)

module _ {E A : Type 0} (f : A → Result E (Unit {0})) where
  unfoldable pub each : List A → Result E (Unit {0})
  each [] = ok tt
  each (x ∷ xs) = f x >> each xs

  pub each_iff : (xs : List A) → (each xs ≡ ok tt) ↔ All (λ x. f x ≡ ok tt) xs
  unfolding each
  each_iff [] = (λ _. tt, λ _. refl)
  each_iff (x ∷ xs) =
      let (to, from) = >>_iff (f x) (each xs) in
      let (down, up) = each_iff xs in (λ h. ((to h).0, down (to h).1), λ h. from (h.0, up h.1))

pub Result-cases {ℓ} :
    {E A : Type ℓ} (r : Result E A) → ((a : A) × (r ≡ ok a)) ⊎ ((e : E) × (r ≡ err e))
Result-cases (ok a) = inl (a, refl)
Result-cases (err e) = inr (e, refl)

pub ok-injective {ℓ} : {E A : Type ℓ} {a b : A} → ◌≡◌ {A = Result E A} (ok a) (ok b) → a ≡ b
ok-injective h = cc

-- `ok_or(e)?` and `map_err(f)`.
abbrev pub or_fail {ℓ} : {A E : Type ℓ} → Option A → E → Result E A
or_fail none e = err e
or_fail (some a) e = ok a

abbrev pub map_err {ℓ} : {A E F : Type ℓ} → (E → F) → Result E A → Result F A
map_err f (ok a) = ok a
map_err f (err e) = err (f e)

pub or_fail-eq_ok {ℓ} :
    {A E : Type ℓ} (o : Option A) (e : E) {a : A} → or_fail o e ≡ ok a → o ≡ some a
or_fail-eq_ok none e h = cc
or_fail-eq_ok (some b) e h = cc

pub map_err-eq_ok {ℓ} :
    {A E F : Type ℓ} (f : E → F) (r : Result E A) {a : A} → map_err f r ≡ ok a → r ≡ ok a
map_err-eq_ok f (ok b) h = cc
map_err-eq_ok f (err e) h = cc

-- ===== src/Text/Keys.antt =====
-- `BTreeMap<String, V>` as a list of bindings in the order of the keys. UTF-8 keeps the order of the
-- code points, so keys are compared by these.
use Prim.Native.Nat.{compare, Ordering}
use earl.Prelude.{
  All, Bool-cases, inl, inr, subst, Bool, true, false, ◌≡◌, refl, Option, none, some, List, [], ◌∷◌,
  arith, if◌then◌else◌,
}
use earl.Text.{Text, text_eq}
use earl.Text.Laws.{text_eq_iff}

abbrev pub Map {ℓ} : Type ℓ → Type ℓ
Map V = List (Text × V)

unfoldable pub text_lt : Text → Text → Bool
text_lt [] [] = false
text_lt [] (_ ∷ _) = true
text_lt (_ ∷ _) [] = false
text_lt (a ∷ s) (b ∷ t) = elim (compare a b) [
  | Ordering.lt ↦ true
  | Ordering.gt ↦ false
  | Ordering.eq ↦ text_lt s t
]

module _ {ℓ} {V : Type ℓ} where
  -- `get`.
  unfoldable pub lookup : Text → Map V → Option V
  lookup k [] = none
  lookup k ((j, v) ∷ m) = if text_eq j k then some v else lookup k m

  unfoldable pub contains_key : Text → Map V → Bool
  unfolding lookup
  contains_key k m = elim (lookup k m) [ none ↦ false | some _ ↦ true ]

  unfoldable pub insert : Text → V → Map V → Map V
  unfolding text_lt
  insert k v [] = (k, v) ∷ []
  insert k v ((j, w) ∷ m) =
      let rest = (j, w) ∷ insert k v m in
      if text_eq j k then (k, v) ∷ m else if text_lt k j then (k, v) ∷ (j, w) ∷ m else rest

  pub lookup-insert :
      (k j : Text) (v : V) (m : Map V)
      → lookup j (insert k v m) ≡ (if text_eq k j then some v else lookup j m)
  unfolding lookup insert
  lookup-insert k j v [] = refl
  lookup-insert k j v ((i, w) ∷ m) =
      ground (arith, text_eq_iff k j, text_eq_iff i k, text_eq_iff i j, lookup-insert k j v m)

-- What holds of every binding holds of a value that is found.
pub lookup-All {ℓ κ} :
    {V : Type ℓ} (P : Text × V → Type κ) (k : Text) (m : Map V) {v : V}
    → All P m
    → lookup k m ≡ some v
    → (j : Text) × P (j, v)
unfolding lookup
lookup-All P k [] h e = absurd (ground arith)
lookup-All P k ((j, w) ∷ m) (p, ps) e = elim (Bool-cases (text_eq j k)) [
  | inl here ↦ (let same : w ≡ _ = ground arith in (j, subst (λ x. P (j, x)) same p))
  | inr later ↦ lookup-All P k m ps (ground arith)
]

-- The same at the key itself.
pub lookup-All_key {ℓ κ} :
    {V : Type ℓ} (P : Text × V → Type κ) (k : Text) (m : Map V) {v : V}
    → All P m
    → lookup k m ≡ some v
    → P (k, v)
unfolding lookup
lookup-All_key P k [] h e = absurd (ground arith)
lookup-All_key P k ((j, w) ∷ m) (p, ps) e = elim (Bool-cases (text_eq j k)) [
  | inl here ↦
      (let same : w ≡ _ = ground arith in
        subst (λ x. P (k, x)) same (subst (λ x. P (x, w)) ((text_eq_iff j k).0 here) p))
  | inr later ↦ lookup-All_key P k m ps (ground arith)
]

pub insert-All {ℓ κ} :
    {V : Type ℓ} (P : Text × V → Type κ) (k : Text) (v : V) (m : Map V)
    → P (k, v)
    → All P m
    → All P (insert k v m)
unfolding insert
insert-All P k v [] p h = (p, tt)
insert-All P k v ((j, w) ∷ m) p (q, h) = elim (Bool-cases (text_eq j k)) [
  | inl here ↦ rw here (p, h)
  | inr other ↦ elim (Bool-cases (text_lt k j)) [
    | inl before ↦ rw (other, before) (p, (q, h))
    | inr after ↦ rw (other, after) (q, insert-All P k v m p h)
  ]
]

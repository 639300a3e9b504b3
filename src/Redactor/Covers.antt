-- ===== src/Redactor/Covers.antt =====
-- The variants of a redactor hold each secret: Redactor::new of crates/earl-core/src/redact.rs.
use earl.Prelude.{
  false, ◌≡◌, refl, sym, subst, inl, inr, Bool-cases, List, [], ◌∷◌, is_empty, ltb, if◌then◌else◌,
  Any,
}
use earl.Text.{Text, text_eq, len}
use earl.Text.Laws.{text_eq_iff}
use earl.Text.Keys.{text_lt}
use earl.Redactor.{
  Encodings, insert_variant, insert_variants, goes_before, place_variant, sort_variants,
  encoded_variants, variants_of, collect_variants, new_redactor, redact,
}
use earl.Redactor.Occurrences.{occurs}
use earl.Redactor.Lacks.{IsPlain, redact-removes}

module _ (q : Text) where
  abbrev Holds : List Text → Type 0
  Holds vs = Any (λ p. p ≡ q) vs

  in_tail : (x : Text) (vs ws : List Text) → (Holds vs → Holds ws) → Holds (x ∷ vs) → Holds (x ∷ ws)
  in_tail x vs ws f (inl here) = inl here
  in_tail x vs ws f (inr there) = inr (f there)

  insert_variant-new : (vs : List Text) → Holds (insert_variant q vs)
  unfolding insert_variant
  insert_variant-new [] = inl refl
  insert_variant-new (x ∷ vs) = elim (Bool-cases (text_eq q x)) [
    | inl same ↦ rw same (inl (sym ((text_eq_iff q x).0 same)))
    | inr other ↦ elim (Bool-cases (text_lt q x)) [
      | inl less ↦ rw (other, less) (inl refl)
      | inr more ↦ rw (other, more) (inr (insert_variant-new vs))
    ]
  ]

  insert_variant-keeps : (v : Text) (vs : List Text) → Holds vs → Holds (insert_variant v vs)
  unfolding insert_variant
  insert_variant-keeps v [] h = absurd h
  insert_variant-keeps v (x ∷ vs) h = elim (Bool-cases (text_eq v x)) [
    | inl same ↦ rw same h
    | inr other ↦ elim (Bool-cases (text_lt v x)) [
      | inl less ↦ rw (other, less) (inr h)
      | inr more ↦ rw (other, more) (in_tail x vs _ (insert_variant-keeps v vs) h)
    ]
  ]

  insert_variants-keeps : (new vs : List Text) → Holds vs → Holds (insert_variants new vs)
  unfolding insert_variants
  insert_variants-keeps [] vs h = h
  insert_variants-keeps (v ∷ new) vs h =
      insert_variants-keeps new (insert_variant v vs) (insert_variant-keeps v vs h)

  place_variant-new : (vs : List Text) → Holds (place_variant q vs)
  unfolding place_variant
  place_variant-new [] = inl refl
  place_variant-new (x ∷ vs) = elim (Bool-cases (goes_before q x)) [
    | inl front ↦ rw front (inl refl)
    | inr later ↦ rw later (inr (place_variant-new vs))
  ]

  place_variant-keeps : (v : Text) (vs : List Text) → Holds vs → Holds (place_variant v vs)
  unfolding place_variant
  place_variant-keeps v [] h = absurd h
  place_variant-keeps v (x ∷ vs) h = elim (Bool-cases (goes_before v x)) [
    | inl front ↦ rw front (inr h)
    | inr later ↦ rw later (in_tail x vs _ (place_variant-keeps v vs) h)
  ]

  sort_variants-keeps : (vs : List Text) → Holds vs → Holds (sort_variants vs)
  unfolding sort_variants
  sort_variants-keeps [] h = h
  sort_variants-keeps (v ∷ vs) (inl same) =
      subst (λ v'. Holds (place_variant v' (sort_variants vs))) (sym same)
        (place_variant-new (sort_variants vs))
  sort_variants-keeps (v ∷ vs) (inr later) =
      place_variant-keeps v (sort_variants vs) (sort_variants-keeps vs later)

  module _ (encodings : Encodings) where
    variants_of-new :
        (vs : List Text) → is_empty q ≡ false → Holds (insert_variants (variants_of encodings q) vs)
    unfolding variants_of insert_variants
    variants_of-new vs filled = rw filled (
        insert_variants-keeps (if ltb (len q) 6 then [] else encoded_variants encodings q)
          (insert_variant q vs) (insert_variant-new vs))

    collect_variants-keeps :
        (secrets vs : List Text) → Holds vs → Holds (collect_variants encodings secrets vs)
    unfolding collect_variants
    collect_variants-keeps [] vs h = h
    collect_variants-keeps (s ∷ secrets) vs h =
        collect_variants-keeps secrets _ (insert_variants-keeps (variants_of encodings s) vs h)

    collect_variants-new :
        (secrets vs : List Text)
        → is_empty q ≡ false
        → Holds secrets
        → Holds (collect_variants encodings secrets vs)
    unfolding collect_variants
    collect_variants-new [] vs filled h = absurd h
    collect_variants-new (s ∷ secrets) vs filled (inl same) = collect_variants-keeps secrets _ (
        subst (λ s'. Holds (insert_variants (variants_of encodings s') vs)) (sym same)
          (variants_of-new vs filled))
    collect_variants-new (s ∷ secrets) vs filled (inr later) =
        collect_variants-new secrets _ filled later

-- A secret of a redactor that has no square bracket and is no part of REDACTED stands nowhere in a
-- redacted output, whatever the output and the other secrets are.
pub redact-Lacks :
    (encodings : Encodings) (secrets : List Text) (secret input : Text)
    → IsPlain secret
    → Any (λ s. s ≡ secret) secrets
    → occurs secret (redact (new_redactor encodings secrets) input) ≡ false
unfolding new_redactor
redact-Lacks encodings secrets secret input plain given =
    redact-removes secret plain (new_redactor encodings secrets) input (
      sort_variants-keeps secret (collect_variants encodings secrets [])
        (collect_variants-new secret encodings secrets [] plain.filled given))

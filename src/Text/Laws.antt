-- ===== src/Text/Laws.antt =====
-- The string methods meet their meaning: equality, prefixes and the first occurrence.
use earl.Prelude.{
  ap, ◌+◌, ◌∙◌, length-append, inl, inr, Option-cases, ◌<◌, length, ℕ, Bool, true, false, ◌≡◌, refl,
  ◌↔◌, some, [], ◌∷◌, ◌++◌, arith, All,
}
use earl.Text.{
  keep_front, trim, trim_start_matches, is_blank, is_whitespace, trim_end_matches, split_once, Text,
  len, bytes, encode, text_eq, strip_prefix, starts_with, span,
}

pub text_eq_iff : (s t : Text) → (text_eq s t ≡ true) ↔ (s ≡ t)
unfolding text_eq
text_eq_iff [] [] = ground arith
text_eq_iff [] (b ∷ t) = ground arith
text_eq_iff (a ∷ s) [] = ground arith
text_eq_iff (a ∷ s) (b ∷ t) = ground (arith, text_eq_iff s t)

pub text_eq_refl : (s : Text) → text_eq s s ≡ true
text_eq_refl s = (text_eq_iff s s).1 refl

pub strip_prefix-eq_some : (p s r : Text) → strip_prefix p s ≡ some r → s ≡ p ++ r
unfolding strip_prefix
strip_prefix-eq_some [] s r h = cc
strip_prefix-eq_some (a ∷ p) [] r h = cc
strip_prefix-eq_some (a ∷ p) (b ∷ s) r h = ground (arith, strip_prefix-eq_some p s r)

pub strip_prefix-append : (p r : Text) → strip_prefix p (p ++ r) ≡ some r
unfolding strip_prefix
strip_prefix-append [] r = refl
strip_prefix-append (a ∷ p) r = ground (arith, strip_prefix-append p r)

pub starts_with-append : (p r : Text) → starts_with p (p ++ r) ≡ true
unfolding starts_with
starts_with-append [] r = refl
starts_with-append (a ∷ p) r = ground (arith, starts_with-append p r)

pub starts_with_inv : (p s : Text) → starts_with p s ≡ true → (r : Text) × (s ≡ p ++ r)
unfolding starts_with
starts_with_inv [] s h = (s, refl)
starts_with_inv (a ∷ p) [] h = cc
starts_with_inv (a ∷ p) (b ∷ s) h =
    let (r, e) = starts_with_inv p s (ground arith) in (r, ground arith)

pub span-append : (p : ℕ → Bool) (s : Text) → s ≡ (span p s).0 ++ (span p s).1
unfolding span
span-append p [] = refl
span-append p (c ∷ s) = ground (arith, span-append p s)

pub span-All : (p : ℕ → Bool) (s : Text) → All (λ c. p c ≡ true) (span p s).0
unfolding span
span-All p [] = tt
span-All p (c ∷ s) = ground (arith, span-All p s)

-- A text of ASCII characters has as many bytes as characters.
pub len-ascii : (s : Text) → All (λ c. c < 128) s → len s ≡ length s
unfolding len bytes encode
len-ascii [] h = refl
len-ascii (c ∷ s) (h, hs) = ground (arith, len-ascii s hs)

-- The slices around an occurrence make up the text.
pub split_once-eq_some :
    (p s before after : Text) → split_once p s ≡ some (before, after) → s ≡ before ++ (p ++ after)
unfolding split_once
split_once-eq_some p [] before after h = elim (Option-cases (strip_prefix p [])) [
  | inl e ↦ absurd (ground arith)
  | inr (r, e) ↦ (let q = strip_prefix-eq_some p [] r e in ground arith)
]
split_once-eq_some p (c ∷ s) before after h = elim (Option-cases (strip_prefix p (c ∷ s))) [
  | inr (r, e) ↦ (let q = strip_prefix-eq_some p (c ∷ s) r e in ground arith)
  | inl e ↦ elim (Option-cases (split_once p s)) [
    | inl f ↦ absurd (ground arith)
    | inr ((b, a), f) ↦ (let ih = split_once-eq_some p s b a f in ground arith)
  ]
]

pub length-split_once :
    (p s before after : Text)
    → split_once p s ≡ some (before, after)
    → length s ≡ length before + (length p + length after)
length-split_once p s before after h =
    let e = ap length (split_once-eq_some p s before after h) in
    omega (arith, e, length-append before (p ++ after), length-append p after)

pub length-span : (p : ℕ → Bool) (s : Text) → length s ≡ length (span p s).0 + length (span p s).1
length-span p s = ap length (span-append p s) ∙ length-append (span p s).0 (span p s).1

keep_front-kept :
    (c : ℕ) (t : Text)
    → ◌≡◌ {A = Bool} (elim (keep_front false c t) [ [] ↦ true | _ ∷ _ ↦ false ]) false
unfolding keep_front
keep_front-kept c [] = refl
keep_front-kept c (d ∷ t) = refl

trim_start_matches-cons :
    (p : ℕ → Bool) (c : ℕ) (s : Text) → p c ≡ false → trim_start_matches p (c ∷ s) ≡ c ∷ s
unfolding trim_start_matches
trim_start_matches-cons p c s h = rw h

trim-cons :
    (c : ℕ) (s : Text)
    → is_whitespace c ≡ false
    → trim (c ∷ s) ≡ keep_front false c (trim_end_matches is_whitespace s)
unfolding trim trim_end_matches
trim-cons c s h =
    ap (trim_end_matches is_whitespace) (trim_start_matches-cons is_whitespace c s h)
    ∙ ap (λ b. keep_front b c (trim_end_matches is_whitespace s)) h

-- A text that begins with a visible character is not blank.
pub is_blank-cons : (c : ℕ) (s : Text) → is_whitespace c ≡ false → is_blank (c ∷ s) ≡ false
unfolding is_blank
is_blank-cons c s h =
    ap (λ t. elim t as (λ _. Bool) [ [] ↦ true | _ ∷ _ ↦ false ]) (trim-cons c s h)
    ∙ keep_front-kept c (trim_end_matches is_whitespace s)

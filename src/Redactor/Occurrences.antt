-- ===== src/Redactor/Occurrences.antt =====
-- Occurrences of a text in another, and what they have to do with `split_once`.
use earl.Prelude.{
  ℕ, Bool, true, false, ◌||◌, ◌≡◌, refl, ap, ◌∙◌, inl, inr, Bool-cases, none, some, Option-cases,
  [], ◌∷◌, ◌++◌, ◌==◌, is_empty, All, arith,
}
use earl.Text.{Text, starts_with, strip_prefix, split_once}
use earl.Text.Laws.{split_once-eq_some}

-- Whether the text `q` stands somewhere in another.
unfoldable pub occurs : Text → Text → Bool
unfolding starts_with
occurs q [] = is_empty q
occurs q (c ∷ s) = starts_with q (c ∷ s) || occurs q s

abbrev pub Avoids : ℕ → Text → Type 0
Avoids c q = All (λ d. (d == c) ≡ false) q

starts_with-cut :
    (c : ℕ) (q a b : Text) → Avoids c q → starts_with q (a ++ c ∷ b) ≡ true → starts_with q a ≡ true
unfolding starts_with
starts_with-cut c [] a b h k = refl
starts_with-cut c (d ∷ q) [] b (p, h) k = absurd (ground arith)
starts_with-cut c (d ∷ q) (x ∷ a) b (p, h) k = ground (arith, starts_with-cut c q a b h)

-- A text that avoids a character stands in front of it or behind it.
pub occurs-cut :
    (c : ℕ) (q a b : Text)
    → Avoids c q
    → occurs q a ≡ false
    → occurs q b ≡ false
    → occurs q (a ++ c ∷ b) ≡ false
unfolding occurs starts_with
occurs-cut c [] [] b h ha hb = absurd (cc)
occurs-cut c (d ∷ q) [] b (p, h) ha hb = ground arith
occurs-cut c q (x ∷ a) b h ha hb =
    ground (arith, starts_with-cut c q (x ∷ a) b h, occurs-cut c q a b h)

starts_with-append_left : (q a b : Text) → starts_with q a ≡ true → starts_with q (a ++ b) ≡ true
unfolding starts_with
starts_with-append_left [] a b h = refl
starts_with-append_left (d ∷ q) [] b h = cc
starts_with-append_left (d ∷ q) (x ∷ a) b h = ground (arith, starts_with-append_left q a b)

pub occurs-left :
    (q a b : Text) → is_empty q ≡ false → occurs q (a ++ b) ≡ false → occurs q a ≡ false
unfolding occurs
occurs-left q [] b e h = e
occurs-left q (x ∷ a) b e h = ground (arith, occurs-left q a b, starts_with-append_left q (x ∷ a) b)

pub occurs-right : (q a b : Text) → occurs q (a ++ b) ≡ false → occurs q b ≡ false
unfolding occurs
occurs-right q [] b h = h
occurs-right q (x ∷ a) b h = ground (arith, occurs-right q a b)

starts_with-strip_prefix : (q s : Text) → strip_prefix q s ≡ none → starts_with q s ≡ false
unfolding starts_with strip_prefix
starts_with-strip_prefix [] s h = cc
starts_with-strip_prefix (d ∷ q) [] h = refl
starts_with-strip_prefix (d ∷ q) (x ∷ s) h = ground (arith, starts_with-strip_prefix q s)

-- `split_once` finds the text where it occurs.
pub occurs-split_once :
    (q s : Text) → is_empty q ≡ false → split_once q s ≡ none → occurs q s ≡ false
unfolding occurs split_once
occurs-split_once q [] e h = e
occurs-split_once q (x ∷ s) e h = elim (Option-cases (strip_prefix q (x ∷ s))) [
  | inr (r, found) ↦ absurd (ground arith)
  | inl missed ↦ elim (Option-cases (split_once q s)) [
    | inr ((b, a), found) ↦ absurd (ground arith)
    | inl later ↦
        (let start = starts_with-strip_prefix q (x ∷ s) missed in
          let rest = occurs-split_once q s e later in ground arith)
  ]
]

not_in_front :
    (q b s : Text) (x : ℕ) (a : Text)
    → s ≡ b ++ a
    → starts_with q (x ∷ s) ≡ false
    → starts_with q (x ∷ b) ≡ false
not_in_front q b s x a e h = elim (Bool-cases (starts_with q (x ∷ b))) [
  | inr absent ↦ absent
  | inl front ↦
      (let longer : starts_with q (x ∷ s) ≡ true =
          ap (λ t. starts_with q (x ∷ t)) e ∙ starts_with-append_left q (x ∷ b) a front in
        absurd (cc))
]

-- In front of the first occurrence there is none.
pub occurs-before :
    (q s before after : Text)
    → is_empty q ≡ false
    → split_once q s ≡ some (before, after)
    → occurs q before ≡ false
unfolding occurs split_once
occurs-before q [] before after e h = elim (Option-cases (strip_prefix q [])) [
  | inl missed ↦ absurd (ground arith)
  | inr (r, found) ↦ ground (arith, occurs)
]
occurs-before q (x ∷ s) before after e h = elim (Option-cases (strip_prefix q (x ∷ s))) [
  | inr (r, found) ↦ ground (arith, occurs)
  | inl missed ↦ elim (Option-cases (split_once q s)) [
    | inl later ↦ absurd (ground arith)
    | inr ((b, a), later) ↦
        (let start =
            not_in_front q b s x (q ++ a) (split_once-eq_some q s b a later)
              (starts_with-strip_prefix q (x ∷ s) missed) in
          let rest = occurs-before q s b a e later in ground arith)
  ]
]

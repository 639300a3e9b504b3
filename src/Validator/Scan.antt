-- ===== src/Validator/Scan.antt =====
-- The text scans of src/template/validator.rs. Both are loops that cut the text at each occurrence,
-- so they are one loop over a step (Text/Scan).
use earl.Prelude.{
  ℕ, ◌≤◌, Bool, not, ◌||◌, ◌≡◌, ap, none, some, List, [], ◌∷◌, ◌++◌, arith, if◌then◌else◌, is_empty,
  length, Option-cases, inl, inr, ◌==◌, Bool-cases,
}
use earl.Text.{Text, codes, is_whitespace, trim, trim_end_matches, strip_prefix, split_once, span}
use earl.Text.Scan.{Step, scan_all, Shortens, scan_all_lem}
use earl.Text.Laws.{length-split_once, length-span}

abbrev is_separator : ℕ → Bool
is_separator c = is_whitespace c || c == b'|'

secret_ref : Text → List Text
unfolding strip_prefix span trim_end_matches
secret_ref expr = elim (strip_prefix (codes "secrets.") expr) [
  | none ↦ []
  | some key ↦ trim_end_matches (λ c. c == b'.') (span (λ c. not (is_separator c)) key).0 ∷ []
]

unfoldable pub secret_step : Step Text
unfolding split_once trim secret_ref
secret_step remaining = elim (split_once (codes "{{") remaining) [
  | none ↦ none
  | some (before, opened) ↦ elim (split_once (codes "}}") opened) [
    | none ↦ none
    | some (inner, after) ↦ some (secret_ref (trim inner), after)
  ]
]

unfoldable pub extract_secret_refs : Text → List Text
unfolding scan_all secret_step
extract_secret_refs value = (scan_all secret_step value).0

abbrev pub tail_text : Text → Text
tail_text [] = []
tail_text (c ∷ s) = s

length-tail_text : (s : Text) → length (tail_text s) ≤ length s
length-tail_text [] = omega arith
length-tail_text (c ∷ s) = omega arith

-- `char::is_alphanumeric` asks the tables of Unicode, which are a parameter.
module _ (is_alphanumeric : ℕ → Bool) where
  unfoldable pub args_step : Step Text
  unfolding split_once span
  args_step remaining = elim (split_once (codes "args.") remaining) [
    | none ↦ none
    | some (before, after) ↦
        (let (ident, rest) = span (λ c. is_alphanumeric c || c == b'_') after in
          some (if is_empty ident then ([], tail_text after) else (ident ∷ [], rest)))
  ]

  unfoldable pub extract_args_refs : Text → List Text
  unfolding scan_all args_step
  extract_args_refs s = (scan_all args_step s).0

  pub args_step-Shortens : Shortens args_step
  unfolding args_step
  args_step-Shortens s found rest h = elim (Option-cases (split_once (codes "args.") s)) [
    | inl e ↦ absurd (ground arith)
    | inr ((before, after), e) ↦
        (let cut = length-split_once (codes "args.") s before after e in
          let parts = length-span (λ c. is_alphanumeric c || c == b'_') after in
          let shorter = length-tail_text after in
          elim (Bool-cases (is_empty (span (λ c. is_alphanumeric c || c == b'_') after).0)) [
            | inl none_read ↦
                (let same : tail_text after ≡ rest = ground arith in omega (arith, ap length same))
            | inr read ↦
                (let same : (span (λ c. is_alphanumeric c || c == b'_') after).1 ≡ rest =
                    ground arith in
                  omega (arith, ap length same))
          ])
  ]

pub secret_step-Shortens : Shortens secret_step
unfolding secret_step
secret_step-Shortens s found rest h = elim (Option-cases (split_once (codes "{{") s)) [
  | inl e ↦ absurd (ground arith)
  | inr ((before, opened), e) ↦ elim (Option-cases (split_once (codes "}}") opened)) [
    | inl f ↦ absurd (ground arith)
    | inr ((inner, after), f) ↦
        (let cut = length-split_once (codes "{{") s before opened e in
          let close = length-split_once (codes "}}") opened inner after f in
          let same : after ≡ rest = ground arith in omega (arith, ap length same))
  ]
]

-- The first part of a scan, as an equation for lists.
found_all :
    (step : Step Text) (s : Text)
    → Shortens step
    → (scan_all step s).0
      ≡ elim (step s) [ none ↦ [] | some (found, rest) ↦ found ++ (scan_all step rest).0 ]
found_all step s shrink = elim (Option-cases (step s)) [
  | inl e ↦ rw (scan_all_lem step s shrink, e)
  | inr ((found, rest), e) ↦ rw (scan_all_lem step s shrink, e)
]

-- The scan for secrets does what the source's loop does: it stops where a step does, and else goes
-- on from the text that remains, however long the text is.
extract_secret_refs_lem :
    (value : Text)
    → extract_secret_refs value ≡ elim (secret_step value) [
      | none ↦ []
      | some (found, rest) ↦ found ++ extract_secret_refs rest
    ]
unfolding extract_secret_refs
extract_secret_refs_lem value = found_all secret_step value secret_step-Shortens

-- The scan for arguments does what the source's loop does, whatever the table of letters.
extract_args_refs_lem :
    (is_alphanumeric : ℕ → Bool) (s : Text)
    → extract_args_refs is_alphanumeric s ≡ elim (args_step is_alphanumeric s) [
      | none ↦ []
      | some (found, rest) ↦ found ++ extract_args_refs is_alphanumeric rest
    ]
unfolding extract_args_refs
extract_args_refs_lem is_alphanumeric s =
    found_all (args_step is_alphanumeric) s (args_step-Shortens is_alphanumeric)

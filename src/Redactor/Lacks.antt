-- ===== src/Redactor/Lacks.antt =====
-- What a redacted output no longer holds: `redact` of crates/earl-core/src/redact.rs.
use earl.Prelude.{
  ℕ, zero, suc, ◌<◌, false, ◌≡◌, ap, ◌∙◌, sym, inl, inr, none, some, Option-cases, List, [], ◌∷◌,
  ◌++◌, length, is_empty, Any, subst, arith,
}
use mathlib.Core.List.{append_assoc}
use earl.Text.{Text, codes, split_once}
use earl.Text.Laws.{split_once-eq_some, length-split_once}
use earl.Text.Scan.{scan, scan_all}
use earl.Redactor.{marker, replace_step, replace, redact}
use earl.Redactor.Occurrences.{
  occurs, Avoids, occurs-cut, occurs-left, occurs-right, occurs-split_once, occurs-before,
}

-- A text that cannot lie in the marker, nor over one of its ends.
pub record IsPlain (q : Text) : Type 0 where
  pub filled : is_empty q ≡ false
  pub no_open : Avoids b'[' q
  pub no_close : Avoids b']' q
  pub no_word : occurs q (codes "REDACTED") ≡ false

joined : List ℕ × Text → Text
joined (found, rest) = found ++ rest

-- Where there is no match, the text stays as it is.
scan-no_match :
    (p : Text) (fuel : ℕ) (s : Text)
    → split_once p s ≡ none
    → joined (scan (replace_step p) (suc fuel) s) ≡ s
unfolding joined scan replace_step
scan-no_match p fuel s h = rw (h, scan, replace_step)

-- A match is replaced by the marker, and the search goes on behind it.
scan-match :
    (p : Text) (fuel : ℕ) (s before after : Text)
    → split_once p s ≡ some (before, after)
    → joined (scan (replace_step p) (suc fuel) s)
      ≡ before ++ (marker ++ joined (scan (replace_step p) fuel after))
unfolding joined scan replace_step
scan-match p fuel s before after h =
    let (more, stop) = scan (replace_step p) fuel after in
    rw (h, scan, replace_step)
      (append_assoc (before ++ marker) more stop ∙ append_assoc before marker (more ++ stop))

length-filled : (q : Text) → is_empty q ≡ false → 0 < length q
length-filled [] h = absurd (cc)
length-filled (c ∷ q) h = omega arith

module _ (q : Text) (plain : IsPlain q) where
  occurs-marker :
      (a b : Text) → occurs q a ≡ false → occurs q b ≡ false → occurs q (a ++ (marker ++ b)) ≡ false
  occurs-marker a b ha hb =
      occurs-cut b'[' q a (codes "REDACTED" ++ b']' ∷ b) plain.no_open ha
        (occurs-cut b']' q (codes "REDACTED") b plain.no_close plain.no_word hb)

  scan-keeps :
      (p : Text) (fuel : ℕ) (s : Text)
      → occurs q s ≡ false
      → occurs q (joined (scan (replace_step p) fuel s)) ≡ false
  unfolding joined scan
  scan-keeps p zero s h = h
  scan-keeps p (suc fuel) s h = elim (Option-cases (split_once p s)) [
    | inl e ↦ ap (occurs q) (scan-no_match p fuel s e) ∙ h
    | inr ((before, after), e) ↦
        (let parts : occurs q (before ++ (p ++ after)) ≡ false =
            ap (occurs q) (sym (split_once-eq_some p s before after e)) ∙ h in
          ap (occurs q) (scan-match p fuel s before after e)
          ∙ occurs-marker before _ (occurs-left q before (p ++ after) plain.filled parts) (
              scan-keeps p fuel after
                (occurs-right q p after (occurs-right q before (p ++ after) parts))))
  ]

  scan-removes :
      (fuel : ℕ) (s : Text)
      → length s < fuel
      → occurs q (joined (scan (replace_step q) fuel s)) ≡ false
  scan-removes zero s h = absurd (omega arith)
  scan-removes (suc fuel) s h = elim (Option-cases (split_once q s)) [
    | inl e ↦ ap (occurs q) (scan-no_match q fuel s e) ∙ occurs-split_once q s plain.filled e
    | inr ((before, after), e) ↦
        (let shorter = length-split_once q s before after e in
          let positive = length-filled q plain.filled in
          ap (occurs q) (scan-match q fuel s before after e)
          ∙ occurs-marker before _ (occurs-before q s before after plain.filled e)
              (scan-removes fuel after (omega arith)))
  ]

  redact-keeps :
      (secrets : List Text) (s : Text) → occurs q s ≡ false → occurs q (redact secrets s) ≡ false
  unfolding redact replace scan_all joined
  redact-keeps [] s h = h
  redact-keeps (p ∷ secrets) s h =
      redact-keeps secrets (replace p s) (scan-keeps p (suc (length s)) s h)

  pub redact-removes :
      (secrets : List Text) (s : Text)
      → Any (λ p. p ≡ q) secrets
      → occurs q (redact secrets s) ≡ false
  unfolding redact replace scan_all joined
  redact-removes [] s h = absurd h
  redact-removes (p ∷ secrets) s (inl same) = redact-keeps secrets (replace p s) (
      subst (λ p'. occurs q (replace p' s) ≡ false) (sym same)
        (scan-removes (suc (length s)) s (omega arith)))
  redact-removes (p ∷ secrets) s (inr later) = redact-removes secrets (replace p s) later

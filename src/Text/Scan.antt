-- ===== src/Text/Scan.antt =====
-- Loops that consume a text step by step, on fuel that the length of the text bounds.
use earl.Prelude.{
  ℕ, zero, suc, ◌<◌, ◌≡◌, Option, none, some, List, [], ◌++◌, arith, length, Option-cases, inl, inr,
}
use earl.Text.{Text}

-- A step stops, or gives what it found and the text that remains.
abbrev pub Step {ℓ} : Type ℓ → Type ℓ
Step A = Text → Option (List A × Text)

module _ {ℓ} {A : Type ℓ} where
  -- All that the steps find, and the text at which they stop.
  unfoldable pub scan : Step A → ℕ → Text → List A × Text
  scan step zero s = ([], s)
  scan step (suc fuel) s = elim (step s) [
    | none ↦ ([], s)
    | some (found, rest) ↦ (let (more, stop) = scan step fuel rest in (found ++ more, stop))
  ]

  -- A step that leaves less text each time.
  abbrev pub Shortens : Step A → Type ℓ
  Shortens step =
      (s : Text) (found : List A) (rest : Text)
      → step s ≡ some (found, rest)
      → length rest < length s

  -- Fuel above the length of the text is enough: more changes nothing.
  pub scan_fuel :
      (step : Step A) (f g : ℕ) (s : Text)
      → Shortens step
      → length s < f
      → length s < g
      → scan step f s ≡ scan step g s
  unfolding scan
  scan_fuel step zero g s shrink hf hg = absurd (omega arith)
  scan_fuel step (suc f) zero s shrink hf hg = absurd (omega arith)
  scan_fuel step (suc f) (suc g) s shrink hf hg = elim (Option-cases (step s)) [
    | inl e ↦ rw (e, scan)
    | inr ((found, rest), e) ↦
        (let less = shrink s found rest e in
          let ih = scan_fuel step f g rest shrink (omega arith) (omega arith) in rw (e, scan, ih))
  ]

  -- A scan on enough fuel.
  unfoldable pub scan_all : Step A → Text → List A × Text
  unfolding scan
  scan_all step s = scan step (suc (length s)) s

  -- It makes one step and goes on, however long the text is.
  pub scan_all_lem :
      (step : Step A) (s : Text)
      → Shortens step
      → scan_all step s ≡ elim (step s) [
        | none ↦ ([], s)
        | some (found, rest) ↦ (found ++ (scan_all step rest).0, (scan_all step rest).1)
      ]
  unfolding scan_all
  scan_all_lem step s shrink = elim (Option-cases (step s)) [
    | inl e ↦ rw (e, scan)
    | inr ((found, rest), e) ↦
        (let less = shrink s found rest e in
          rw (
            e,
            scan,
            scan_fuel step (length s) (suc (length rest)) rest shrink (omega arith) (omega arith),
          ))
  ]

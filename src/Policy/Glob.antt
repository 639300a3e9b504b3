-- ===== src/Policy/Glob.antt =====
-- The glob matcher of src/mcp/policy.rs against the meaning of a pattern.
use earl.Prelude.{
  ℕ, suc, ◌+◌, ◌≤◌, true, ◌≡◌, refl, sym, ap, subst, ◌≢◌, ◌↔◌, ◌⊎◌, inl, inr, List, [], ◌∷◌, ◌++◌,
  arith, ◌==◌, if◌then◌else◌, All, Bool-cases, Any, any_iff, Any-map,
}
use earl.Text.{Text, codes, bytes, len, to_lower, to_ascii_lowercase}
use earl.Text.Laws.{text_eq_iff}
use earl.Policy.{glob_matches_recursive, glob_matches, max_input, matches_any}

-- What a pattern stands for: a star for any run of bytes without a dot, any other byte for itself
-- up to the case of ASCII letters.
pub data Matches : List ℕ → List ℕ → Type 0 where
  done : Matches [] []
  star :
      {p : ℕ} {pattern value rest : List ℕ} (run : List ℕ)
      → p ≡ b'*'
      → All (λ ch. ch ≢ b'.') run
      → value ≡ run ++ rest
      → Matches pattern rest
      → Matches (p ∷ pattern) value
  byte :
      {p ch : ℕ} {pattern value : List ℕ}
      → p ≢ b'*'
      → to_lower p ≡ to_lower ch
      → Matches pattern value
      → Matches (p ∷ pattern) (ch ∷ value)

-- A star that matched a run takes one byte more in front.
longer :
    {p ch : ℕ} {pattern value : List ℕ}
    → p ≡ b'*'
    → ch ≢ b'.'
    → Matches (p ∷ pattern) value
    → Matches (p ∷ pattern) (ch ∷ value)
longer {ch} s d (star run e h v m) = star (ch ∷ run) s (d, h) (ground arith) m
longer s d (byte n _ _) = absurd (n s)

sound :
    (pattern value : List ℕ) → glob_matches_recursive pattern value ≡ true → Matches pattern value
unfolding glob_matches_recursive
sound [] [] h = done
sound [] (ch ∷ value) h = cc
sound (p ∷ pattern) [] h = star [] (ground arith) tt refl (sound pattern [] (ground arith))
sound (p ∷ pattern) (ch ∷ value) h = elim (Bool-cases (p == b'*')) [
  | inl s ↦ elim (Bool-cases (glob_matches_recursive pattern (ch ∷ value))) [
    | inl z ↦ star [] (ground arith) tt refl (sound pattern (ch ∷ value) z)
    | inr z ↦ longer (ground arith) (ground arith) (sound (p ∷ pattern) value (ground arith))
  ]
  | inr n ↦ byte (ground arith) (ground arith) (sound pattern value (ground arith))
]

-- The matcher accepts a star's run when it accepts what follows.
star_run :
    (p : ℕ) (pattern run rest : List ℕ)
    → p ≡ b'*'
    → All (λ ch. ch ≢ b'.') run
    → glob_matches_recursive pattern rest ≡ true
    → glob_matches_recursive (p ∷ pattern) (run ++ rest) ≡ true
unfolding glob_matches_recursive
star_run p pattern [] [] s h m = ground arith
star_run p pattern [] (ch ∷ rest) s h m = ground arith
star_run p pattern (ch ∷ run) rest s (d, h) m =
    let ih = star_run p pattern run rest s h m in ground arith

complete :
    {pattern value : List ℕ} → Matches pattern value → glob_matches_recursive pattern value ≡ true
unfolding glob_matches_recursive
complete done = refl
complete (star {p} {pattern} {rest} run s h e m) =
    subst (λ v. glob_matches_recursive (p ∷ pattern) v ≡ true) (sym e)
      (star_run p pattern run rest s h (complete m))
complete (byte n same m) = let ih = complete m in ground arith

pub glob_matches_recursive_iff :
    (pattern value : List ℕ) → (glob_matches_recursive pattern value ≡ true) ↔ Matches pattern value
glob_matches_recursive_iff pattern value = (sound pattern value, complete)

-- When a pattern of a rule accepts a value: the lone star always, any other pattern by the
-- meaning of its bytes in lower case, if both together are short enough.
abbrev pub Accepts : Text → Text → Type 0
Accepts pattern value =
    (pattern ≡ codes "*")
    ⊎ ((len pattern + len value ≤ max_input)
        × Matches (bytes (to_ascii_lowercase pattern)) (bytes (to_ascii_lowercase value)))

-- `glob_matches` holds exactly for a lone star, and for a pattern and a value of at most 256
-- bytes together whose lower-case bytes match in the sense of `Matches`.
pub glob_matches_iff :
    (pattern value : Text) → (glob_matches pattern value ≡ true) ↔ Accepts pattern value
unfolding glob_matches
glob_matches_iff pattern value = ground (
  arith,
  text_eq_iff pattern (codes "*"),
  glob_matches_recursive_iff (bytes (to_ascii_lowercase pattern))
      (bytes (to_ascii_lowercase value)),
)

pub matches_any_iff :
    (patterns : List Text) (value : Text)
    → (matches_any patterns value ≡ true) ↔ Any (λ pattern. Accepts pattern value) patterns
unfolding matches_any
matches_any_iff patterns value =
    let (to, from) = any_iff (λ pattern. glob_matches pattern value) patterns in
    (
      λ h. Any-map _ _ patterns (λ p. (glob_matches_iff p value).0) (to h),
      λ h. from (Any-map _ _ patterns (λ p. (glob_matches_iff p value).1) h),
    )

-- The number of dots.
abbrev pub dots : List ℕ → ℕ
dots [] = 0
dots (ch ∷ value) = if ch == b'.' then suc (dots value) else dots value

dots-run : (run rest : List ℕ) → All (λ ch. ch ≢ b'.') run → dots (run ++ rest) ≡ dots rest
dots-run [] rest h = refl
dots-run (ch ∷ run) rest (d, h) = ground (arith, dots-run run rest h)

dots-Matches : {pattern value : List ℕ} → Matches pattern value → dots pattern ≡ dots value
dots-Matches done = refl
dots-Matches (star {pattern} {rest} run s h e m) =
    ground (arith, dots-Matches m, dots-run run rest h, ap dots e)
dots-Matches (byte n same m) = ground (arith, dots-Matches m)

-- A star never crosses a dot: whatever the matcher accepts has as many dots as the pattern.
dots-glob_matches_recursive :
    (pattern value : List ℕ)
    → glob_matches_recursive pattern value ≡ true
    → dots pattern ≡ dots value
dots-glob_matches_recursive pattern value h = dots-Matches (sound pattern value h)

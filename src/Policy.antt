-- ===== src/Policy.antt =====
-- The access policy of the HTTP server for tools: src/mcp/policy.rs, with the rules of src/config.rs
-- and the command modes of crates/earl-core/src/schema.rs. The slices of bytes that the matcher
-- walks are lists of bytes.
pub mod Glob
pub mod Decision
pub mod Limits
mod Tests
use earl.Prelude.{
  ℕ, ◌+◌, Bool, true, false, not, ◌&&◌, Option, none, some, List, [], ◌∷◌, map, ltb, ◌==◌,
  if◌then◌else◌, any,
}
use earl.Text.{Text, codes, bytes, len, text_eq, to_lower, to_ascii_lowercase}

pub data CommandMode : Type 0 where
  read write : CommandMode

pub data PolicyMode : Type 0 where
  read write : PolicyMode

pub data PolicyEffect : Type 0 where
  allow deny : PolicyEffect

pub record PolicyRule : Type 0 where
  pub subjects : List Text
  pub tools : List Text
  pub modes : Option (List PolicyMode)
  pub effect : PolicyEffect

pub data PolicyDecision : Type 0 where
  allow deny : PolicyDecision

-- The recursive calls are bound, so that only the one that is needed is made.
unfoldable pub glob_matches_recursive : List ℕ → List ℕ → Bool
glob_matches_recursive [] [] = true
glob_matches_recursive [] (_ ∷ _) = false
glob_matches_recursive (p ∷ pattern) [] =
    let zero_chars = glob_matches_recursive pattern [] in if p == b'*' then zero_chars else false
glob_matches_recursive (p ∷ pattern) (ch ∷ value) =
    let zero_chars = glob_matches_recursive pattern (ch ∷ value) in
    let one_char = glob_matches_recursive (p ∷ pattern) value in
    let both = glob_matches_recursive pattern value in
    if p == b'*'
    then (if zero_chars then true else if not (ch == b'.') then one_char else false)
    else if to_lower p == to_lower ch
    then both
    else false

abbrev pub max_input : ℕ
max_input = 256

unfoldable pub glob_matches : Text → Text → Bool
unfolding glob_matches_recursive text_eq len to_ascii_lowercase
glob_matches pattern value =
    if text_eq pattern (codes "*")
    then true
    else if ltb max_input (len pattern + len value)
    then false
    else glob_matches_recursive (bytes (to_ascii_lowercase pattern))
        (bytes (to_ascii_lowercase value))

unfoldable pub matches_any : List Text → Text → Bool
unfolding glob_matches any
matches_any patterns value = any (λ pattern. glob_matches pattern value) patterns

abbrev pub mode_val : CommandMode → PolicyMode
mode_val CommandMode.read = PolicyMode.read
mode_val CommandMode.write = PolicyMode.write

-- `==` on `PolicyMode`, and `modes.contains(..)`.
unfoldable pub mode_eq : PolicyMode → PolicyMode → Bool
mode_eq PolicyMode.read PolicyMode.read = true
mode_eq PolicyMode.write PolicyMode.write = true
mode_eq _ _ = false

unfoldable pub admits_mode : Option (List PolicyMode) → CommandMode → Bool
unfolding mode_eq any
admits_mode none tool_mode = true
admits_mode (some modes) tool_mode = any (λ m. mode_eq m (mode_val tool_mode)) modes

abbrev pub decide_effect : PolicyEffect → PolicyDecision → PolicyDecision
decide_effect PolicyEffect.deny found = PolicyDecision.deny
decide_effect PolicyEffect.allow found = found

-- The loop of `evaluate`, with its variable `has_allow`.
unfoldable pub evaluate_from : Bool → List PolicyRule → Text → Text → CommandMode → PolicyDecision
unfolding matches_any admits_mode
evaluate_from has_allow [] subject tool_key tool_mode =
    if has_allow then PolicyDecision.allow else PolicyDecision.deny
evaluate_from has_allow (policy ∷ policies) subject tool_key tool_mode =
    let skip = evaluate_from has_allow policies subject tool_key tool_mode in
    let found = evaluate_from true policies subject tool_key tool_mode in
    if not (matches_any policy.subjects subject)
    then skip
    else if not (matches_any policy.tools tool_key)
    then skip
    else if not (admits_mode policy.modes tool_mode)
    then skip
    else decide_effect policy.effect found

unfoldable pub evaluate : List PolicyRule → Text → Text → CommandMode → PolicyDecision
unfolding evaluate_from
evaluate policies subject tool_key tool_mode =
    evaluate_from false policies subject tool_key tool_mode

abbrev pub is_allow : PolicyDecision → Bool
is_allow PolicyDecision.allow = true
is_allow PolicyDecision.deny = false

unfoldable pub filter_allowed : List PolicyRule → Text → List (Text × CommandMode) → List Text
unfolding evaluate
filter_allowed policies subject [] = []
filter_allowed policies subject ((key, mode) ∷ entries) =
    let rest = filter_allowed policies subject entries in
    if is_allow (evaluate policies subject key mode) then key ∷ rest else rest

-- ===== src/Policy/Limits.antt =====
-- What the length guard of the matcher in src/mcp/policy.rs means for the rules.
use earl.Prelude.{◌<◌, false, ◌≡◌, refl, ◌≢◌, List, [], ◌∷◌, arith, All, any}
use earl.Text.{Text, codes, len}
use earl.Text.Laws.{text_eq_iff}
use earl.Policy.{
  CommandMode, PolicyRule, glob_matches, matches_any, evaluate_from, evaluate, max_input,
}

glob_matches_long :
    (pattern value : Text)
    → max_input < len value
    → pattern ≢ codes "*"
    → glob_matches pattern value ≡ false
unfolding glob_matches
glob_matches_long pattern value h n = ground (arith, text_eq_iff pattern (codes "*"))

pub matches_any_long :
    (patterns : List Text) (value : Text)
    → max_input < len value
    → All (λ pattern. pattern ≢ codes "*") patterns
    → matches_any patterns value ≡ false
unfolding matches_any any
matches_any_long [] value h n = refl
matches_any_long (p ∷ patterns) value h (n, ns) =
    ground (arith, glob_matches_long p value h n, matches_any_long patterns value h ns)

-- A rule whose subjects are all other than the lone star is passed over for every subject of more
-- than 256 bytes: the decision is that of the other rules, also where the rule denies.
pub evaluate_long_subject :
    (rule : PolicyRule) (policies : List PolicyRule) (subject tool_key : Text)
    (tool_mode : CommandMode)
    → max_input < len subject
    → All (λ pattern. pattern ≢ codes "*") rule.subjects
    → evaluate (rule ∷ policies) subject tool_key tool_mode
      ≡ evaluate policies subject tool_key tool_mode
unfolding evaluate evaluate_from
evaluate_long_subject rule policies subject tool_key tool_mode h n =
    ground (arith, matches_any_long rule.subjects subject h n)

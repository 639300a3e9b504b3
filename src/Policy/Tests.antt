-- ===== src/Policy/Tests.antt =====
-- Runs of src/mcp/policy.rs, after its own tests, and instances of the theorems.
use mathlib.Core.List.Perm
use earl.Prelude.{
  true, false, ◌≡◌, refl, ◌≢◌, ◌↔◌, ◌<◌, none, List, [], ◌∷◌, arith, All, Any, replicate,
}
use earl.Text.{Text, codes, bytes, len}
use earl.Policy.{
  CommandMode, PolicyEffect, PolicyRule, PolicyDecision, glob_matches_recursive, glob_matches,
  evaluate, filter_allowed, max_input,
}
use earl.Policy.Glob.{Accepts, glob_matches_iff}
use earl.Policy.Decision.{Applies, evaluate-eq-allow_iff, evaluate-perm}
use earl.Policy.Limits.{evaluate_long_subject}

abbrev rule : PolicyEffect → Text → Text → PolicyRule
rule effect subject tool = record {
  subjects = subject ∷ [];
  tools = tool ∷ [];
  modes = none;
  effect = effect;
}

abbrev allow_rule : PolicyRule
allow_rule = rule PolicyEffect.allow (codes "alice") (codes "github.*")

abbrev deny_rule : PolicyRule
deny_rule = rule PolicyEffect.deny (codes "alice") (codes "github.delete_*")

abbrev rules : List PolicyRule
rules = allow_rule ∷ deny_rule ∷ []

glob_tests :
    (glob_matches (codes "github.*") (codes "github.create_issue") ≡ true)
    × (glob_matches (codes "github.*") (codes "github.admin.delete") ≡ false)
    × (glob_matches (codes "*.delete_*") (codes "slack.delete_message") ≡ true)
    × (glob_matches (codes "*.delete_*") (codes "github.admin.delete_repo") ≡ false)
    × (glob_matches (codes "*") (codes "github.create_issue") ≡ true)
    × (glob_matches (codes "github.*") (codes "GitHub.Create_Issue") ≡ true)
unfolding glob_matches
glob_tests = (refl, refl, refl, refl, refl, refl)

evaluate_tests :
    (evaluate [] (codes "alice") (codes "github.create_issue") CommandMode.read
      ≡ PolicyDecision.deny)
    × (evaluate rules (codes "alice") (codes "github.create_issue") CommandMode.read
        ≡ PolicyDecision.allow)
    × (evaluate rules (codes "alice") (codes "github.delete_repo") CommandMode.write
        ≡ PolicyDecision.deny)
    × (evaluate rules (codes "bob") (codes "github.create_issue") CommandMode.read
        ≡ PolicyDecision.deny)
unfolding evaluate
evaluate_tests = (refl, refl, refl, refl)

abbrev entries : List (Text × CommandMode)
entries =
    (codes "github.create_issue", CommandMode.write)
    ∷ (codes "github.delete_repo", CommandMode.write)
    ∷ []

filter_test : filter_allowed rules (codes "alice") entries ≡ codes "github.create_issue" ∷ []
unfolding filter_allowed
filter_test = refl

evaluate-eq-allow_iff_example :
    (evaluate rules (codes "alice") (codes "github.delete_repo") CommandMode.write
      ≡ PolicyDecision.allow)
    ↔ (Any
          (λ p.
            Applies (codes "alice") (codes "github.delete_repo") CommandMode.write p
            × (p.effect ≡ PolicyEffect.allow))
          rules
        × All
            (λ p.
              Applies (codes "alice") (codes "github.delete_repo") CommandMode.write p
              → p.effect ≡ PolicyEffect.allow)
            rules)
evaluate-eq-allow_iff_example =
    evaluate-eq-allow_iff (codes "alice") (codes "github.delete_repo") CommandMode.write rules

evaluate-perm_example :
    evaluate rules (codes "alice") (codes "github.delete_repo") CommandMode.write
    ≡ evaluate
        (deny_rule ∷ allow_rule ∷ [])
        (codes "alice")
        (codes "github.delete_repo")
        CommandMode.write
evaluate-perm_example =
    evaluate-perm rules (deny_rule ∷ allow_rule ∷ []) (codes "alice") (codes "github.delete_repo")
      CommandMode.write (Perm.swap deny_rule allow_rule [])

glob_matches_iff_example :
    (glob_matches (codes "*.delete_*") (codes "github.delete_repo") ≡ true)
    ↔ Accepts (codes "*.delete_*") (codes "github.delete_repo")
glob_matches_iff_example = glob_matches_iff (codes "*.delete_*") (codes "github.delete_repo")

star_run : glob_matches_recursive (bytes (codes "a.*")) (bytes (codes "a.bc")) ≡ true
unfolding glob_matches_recursive bytes
star_run = refl

-- A subject of 257 bytes.
abbrev long_subject : Text
long_subject = replicate 257 b'a'

abbrev everyone : PolicyRule
everyone = rule PolicyEffect.allow (codes "*") (codes "*")

not_star : codes "a*" ≢ codes "*"
not_star e = cc

long_length : max_input < len long_subject
unfolding len
long_length = omega arith

evaluate_long_subject_example :
    evaluate
      (rule PolicyEffect.deny (codes "a*") (codes "*") ∷ everyone ∷ [])
      long_subject
      (codes "github.x")
      CommandMode.read
    ≡ evaluate (everyone ∷ []) long_subject (codes "github.x") CommandMode.read
evaluate_long_subject_example =
    evaluate_long_subject (rule PolicyEffect.deny (codes "a*") (codes "*")) (everyone ∷ [])
      long_subject (codes "github.x") CommandMode.read long_length (not_star, tt)

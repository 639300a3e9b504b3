-- ===== src/Environments.antt =====
-- Environment names and the choice of an operation: src/template/environments.rs.
pub mod Names
mod Tests
use earl.Prelude.{
  ℕ, Bool, true, false, not, ◌||◌, Option, none, some, List, ltb, ◌==◌, if◌then◌else◌, all,
  is_empty, Result, ok, err,
}
use earl.Text.{Text, len, is_ascii_alphanumeric}
use earl.Text.Keys.{lookup}
use earl.Schema.{ResultTemplate}
use earl.Schema.Commands.{OperationTemplate, EnvironmentOverride, CommandTemplate}

-- `Option::or`.
abbrev pub or_option {ℓ} : {A : Type ℓ} → Option A → Option A → Option A
or_option (some a) o = some a
or_option none o = o

unfoldable pub resolve_active_env : Option Text → Option Text → Option Text → Option Text
resolve_active_env cli_env config_env template_default =
    or_option (or_option cli_env config_env) template_default

pub data EnvNameError : Type 0 where
  bad_length : Text → EnvNameError
  bad_characters : Text → EnvNameError

abbrev pub is_name_char : ℕ → Bool
is_name_char c = is_ascii_alphanumeric c || c == b'_' || c == b'-'

unfoldable pub validate_env_name : Text → Result EnvNameError (Unit {0})
unfolding len all
validate_env_name name =
    if is_empty name || ltb 64 (len name)
    then err (bad_length name)
    else if not (all is_name_char name)
    then err (bad_characters name)
    else ok tt

unfoldable pub select_for_env : CommandTemplate → Option Text → OperationTemplate × ResultTemplate
unfolding lookup
select_for_env cmd none = (cmd.operation, cmd.result)
select_for_env cmd (some name) = elim (lookup name cmd.environment_overrides) [
  | some o ↦ elim o.result [
    | some result ↦ (o.operation, result)
    | none ↦ (o.operation, cmd.result)
  ]
  | none ↦ (cmd.operation, cmd.result)
]

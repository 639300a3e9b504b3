-- ===== src/Validator/Files.antt =====
-- The checks of src/template/validator.rs on a whole template file.
use earl.Prelude.{
  ℕ, Bool, not, ◌&&◌, Option, none, some, List, [], ◌∷◌, ◌==◌, is_empty, some_and, Result, ok, err,
  ◌>>◌, bail_if, each,
}
use earl.Text.{Text, is_blank}
use earl.Text.Keys.{Map, contains_key}
use earl.Environments.{EnvNameError, validate_env_name}
use earl.Schema.Commands.{
  ProviderEnvironments, EnvironmentOverride, CommandTemplate, TemplateFile, protocol, protocol_eq,
}
use earl.Validator.{ValidationError}
use earl.Validator.Scan.{extract_secret_refs}
use earl.Validator.Parts.{Check, includes}
use earl.Validator.Protocols.{check_some, validate_operation}
use earl.Validator.Commands.{validate_command}

abbrev pub keys {ℓ} : {V : Type ℓ} → Map V → List Text
keys [] = []
keys ((k, v) ∷ m) = k ∷ keys m

-- `validate_env_name(..).map_err(..)`.
abbrev pub map_name_err : Result EnvNameError (Unit {0}) → Check
map_name_err (ok u) = ok u
map_name_err (err e) = err (ValidationError.bad_environment_name e)

unfoldable pub check_name : Text → Check
unfolding validate_env_name
check_name name = map_name_err (validate_env_name name)

unfoldable pub check_default : ProviderEnvironments → Text → Check
unfolding check_name contains_key
check_default envs default_name =
    check_name default_name
    >> bail_if (not (contains_key default_name envs.environments))
        ValidationError.undefined_default_environment

unfoldable pub check_secret_ref : Text → Text → List Text → Text → Check
unfolding includes
check_secret_ref env_name var_name declared_secrets secret_ref =
    bail_if (not (includes declared_secrets secret_ref))
      (ValidationError.undeclared_environment_secret env_name var_name secret_ref)

unfoldable pub check_vars : List Text → Text × Map Text → Check
unfolding each check_secret_ref extract_secret_refs
check_vars declared_secrets (env_name, vars) =
    each
      (λ var. each (check_secret_ref env_name var.0 declared_secrets) (extract_secret_refs var.1))
      vars

unfoldable pub check_environments : ProviderEnvironments → Check
unfolding check_default each check_name check_vars
check_environments envs =
    check_some (check_default envs) envs.default
    >> (each check_name (keys envs.environments)
        >> each (check_vars envs.secrets) envs.environments)

abbrev pub env_names : Option ProviderEnvironments → List Text
env_names none = []
env_names (some envs) = keys envs.environments

unfoldable pub check_override :
    List Text → Text → CommandTemplate → Text × EnvironmentOverride → Check
unfolding check_name includes protocol protocol_eq validate_operation is_blank
check_override defined_env_names name cmd (env_name, o) =
    check_name env_name
    >> (bail_if (not (is_empty defined_env_names) && not (includes defined_env_names env_name))
          (ValidationError.undefined_environment name env_name)
        >> (bail_if
              (not (protocol_eq (protocol o.operation) (protocol cmd.operation))
                && not cmd.annotations.allow_environment_protocol_switching)
              (ValidationError.protocol_switch name env_name)
            >> (validate_operation name o.operation cmd.annotations.secrets
                >> bail_if (some_and (λ result. is_blank result.output) o.result)
                    (ValidationError.empty_override_output name env_name))))

module _ (is_alphanumeric : ℕ → Bool) where
  unfoldable pub check_command : List Text → Text × CommandTemplate → Check
  unfolding each check_override validate_command
  check_command defined_env_names (name, cmd) =
      each (check_override defined_env_names name cmd) cmd.environment_overrides
      >> validate_command is_alphanumeric name cmd

  unfoldable pub validate_template_file : TemplateFile → Check
  unfolding is_blank check_environments each check_command
  validate_template_file file =
      bail_if (not (file.version == 1)) (ValidationError.unsupported_version file.version)
      >> (bail_if (is_blank file.provider) ValidationError.empty_provider
          >> (bail_if (is_empty file.commands) ValidationError.no_commands
              >> (check_some check_environments file.environments
                  >> each (check_command (env_names file.environments)) file.commands)))

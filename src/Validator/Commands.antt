-- ===== src/Validator/Commands.antt =====
-- The checks of src/template/validator.rs on a command.
use earl.Prelude.{ℕ, Bool, not, List, [], ◌∷◌, ◌++◌, map, ok, ◌>>◌, bail_if, each}
use earl.Text.{Text, is_blank}
use earl.Text.Keys.{Map}
use earl.Schema.{ParamSpec}
use earl.Schema.Commands.{EnvironmentOverride, CommandTemplate}
use earl.Validator.{ValidationError}
use earl.Validator.Scan.{extract_args_refs}
use earl.Validator.Strings.{if_some, collect_operation_strings}
use earl.Validator.Parts.{Check, includes}
use earl.Validator.Protocols.{validate_operation}

-- The loop with its set `seen`.
unfoldable pub validate_params_from : Text → List Text → List ParamSpec → Check
unfolding is_blank includes
validate_params_from command_name seen [] = ok tt
validate_params_from command_name seen (param ∷ params) =
    bail_if (is_blank param.name) (ValidationError.empty_parameter_name command_name)
    >> (bail_if (includes seen param.name)
          (ValidationError.duplicate_parameter command_name param.name)
        >> validate_params_from command_name (param.name ∷ seen) params)

unfoldable pub validate_params : Text → List ParamSpec → Check
unfolding validate_params_from
validate_params command_name params = validate_params_from command_name [] params

unfoldable pub override_strings : Map EnvironmentOverride → List Text
unfolding collect_operation_strings
override_strings [] = []
override_strings ((env_name, o) ∷ overrides) =
    collect_operation_strings o.operation
    ++ (if_some (λ result. result.output ∷ []) o.result ++ override_strings overrides)

-- The strings that `validate_template_args` scans.
unfoldable pub template_strings : CommandTemplate → List Text
unfolding collect_operation_strings override_strings
template_strings cmd =
    collect_operation_strings cmd.operation
    ++ (cmd.result.output ∷ override_strings cmd.environment_overrides)

abbrev pub param_names : List ParamSpec → List Text
param_names params = map (λ p. p.name) params

module _ (is_alphanumeric : ℕ → Bool) where
  unfoldable pub check_arg : Text → List Text → Text → Check
  unfolding includes
  check_arg command_name declared arg_ref =
      bail_if (not (includes declared arg_ref))
        (ValidationError.undeclared_arg command_name arg_ref)

  unfoldable pub validate_template_args : Text → CommandTemplate → Check
  unfolding each check_arg extract_args_refs template_strings
  validate_template_args command_name cmd =
      each
        (λ s.
          each (check_arg command_name (param_names cmd.params))
            (extract_args_refs is_alphanumeric s))
        (template_strings cmd)

  unfoldable pub validate_command : Text → CommandTemplate → Check
  unfolding is_blank validate_operation validate_params validate_template_args
  validate_command command_name cmd =
      bail_if (is_blank cmd.title) (ValidationError.empty_title command_name)
      >> (bail_if (is_blank cmd.summary) (ValidationError.empty_summary command_name)
          >> (bail_if (is_blank cmd.description) (ValidationError.empty_description command_name)
              >> (validate_operation command_name cmd.operation cmd.annotations.secrets
                  >> (bail_if (is_blank cmd.result.output)
                        (ValidationError.empty_output command_name)
                      >> (validate_params command_name cmd.params
                          >> validate_template_args command_name cmd)))))

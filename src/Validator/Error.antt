-- ===== src/Validator/Error.antt =====
-- The refusals of src/template/validator.rs, one constructor for each `bail!`.
use earl.Prelude.{ℕ}
use earl.Text.{Text}
use earl.Environments.{EnvNameError}

pub data ValidationError : Type 0 where
  unsupported_version : ℕ → ValidationError
  empty_provider no_commands undefined_default_environment : ValidationError
  bad_environment_name : EnvNameError → ValidationError
  undeclared_environment_secret : (env_name var_name secret_ref : Text) → ValidationError
  undefined_environment : (command env_name : Text) → ValidationError
  protocol_switch : (command env_name : Text) → ValidationError
  empty_override_output : (command env_name : Text) → ValidationError
  empty_title empty_summary empty_description empty_output : (command : Text) → ValidationError
  empty_parameter_name : (command : Text) → ValidationError
  duplicate_parameter : (command name : Text) → ValidationError
  empty_url empty_method empty_query empty_service empty_script : (command : Text) → ValidationError
  graphql_method : (command : Text) → ValidationError
  empty_descriptor_set_file bad_grpc_body api_key_location : (command : Text) → ValidationError
  grpc_proxy_profile grpc_min_version : (command : Text) → ValidationError
  undeclared_secret : (command secret : Text) → ValidationError
  no_parts : (command : Text) → ValidationError
  empty_stream_path : (command : Text) → ValidationError
  bad_part : (command name : Text) → ValidationError
  zero_timeout zero_max_response_bytes empty_proxy_profile : (command : Text) → ValidationError
  bad_min_version : (command version : Text) → ValidationError
  absolute_path parent_path : (command path : Text) → ValidationError
  undeclared_arg : (command name : Text) → ValidationError
  query_template empty_connection_secret : (command : Text) → ValidationError

-- ===== src/Validator/Accepted.antt =====
-- What a template file accepted by src/template/validator.rs guarantees of the operation that
-- `select_for_env` of src/template/environments.rs picks, whatever the environment.
use earl.Prelude.{
  ℕ, Bool, true, false, ◌≡◌, refl, inl, inr, Option, none, some, List, arith, All, All-map,
  Option-cases, ok, >>_iff, each, each_iff,
}
use earl.Text.{Text, is_blank}
use earl.Text.Keys.{lookup, lookup-All}
use earl.Environments.{select_for_env}
use earl.Schema.{ResultTemplate}
use earl.Schema.Commands.{
  OperationTemplate, OperationProtocol, protocol, protocol_eq, EnvironmentOverride, CommandTemplate,
  TemplateFile,
}
use earl.Validator.Commands.{validate_command}
use earl.Validator.Files.{env_names, check_override, check_command, validate_template_file}
use earl.Validator.Secrets.{Declared, operation_secrets, validate_operation-Declared}

-- The promises about one operation and its result under a command.
pub record IsGuarded (cmd : CommandTemplate) (op : OperationTemplate) (result : ResultTemplate)
    : Type 0 where
  pub secrets : All (Declared cmd.annotations.secrets) (operation_secrets op)
  pub same_protocol :
      cmd.annotations.allow_environment_protocol_switching ≡ false
      → protocol op ≡ protocol cmd.operation
  pub output : is_blank result.output ≡ false

protocol_eq_sound : (a b : OperationProtocol) → protocol_eq a b ≡ true → a ≡ b
unfolding protocol_eq
protocol_eq_sound OperationProtocol.http b h = ground arith
protocol_eq_sound OperationProtocol.graphql b h = ground arith
protocol_eq_sound OperationProtocol.grpc b h = ground arith
protocol_eq_sound OperationProtocol.bash b h = ground arith
protocol_eq_sound OperationProtocol.sql b h = ground arith
protocol_eq_sound OperationProtocol.browser b h = ground arith

module _ (is_alphanumeric : ℕ → Bool) (names : List Text) (name : Text)
    (cmd : CommandTemplate) where
  default-IsGuarded :
      validate_command is_alphanumeric name cmd ≡ ok tt → IsGuarded cmd cmd.operation cmd.result
  unfolding validate_command
  default-IsGuarded h = record {
    secrets = validate_operation-Declared name cmd.operation cmd.annotations.secrets (ground arith);
    same_protocol = λ _. refl;
    output = ground arith;
  }

  override-secrets :
      (env_name : Text) (o : EnvironmentOverride)
      → check_override names name cmd (env_name, o) ≡ ok tt
      → All (Declared cmd.annotations.secrets) (operation_secrets o.operation)
  unfolding check_override
  override-secrets env_name o h =
      validate_operation-Declared name o.operation cmd.annotations.secrets (ground arith)

  override-protocol :
      (env_name : Text) (o : EnvironmentOverride)
      → check_override names name cmd (env_name, o) ≡ ok tt
      → cmd.annotations.allow_environment_protocol_switching ≡ false
      → protocol o.operation ≡ protocol cmd.operation
  unfolding check_override
  override-protocol env_name o h no_switch =
      protocol_eq_sound (protocol o.operation) (protocol cmd.operation) (ground arith)

  override-output :
      (env_name : Text) (o : EnvironmentOverride) (result : ResultTemplate)
      → check_override names name cmd (env_name, o) ≡ ok tt
      → o.result ≡ some result
      → is_blank result.output ≡ false
  unfolding check_override
  override-output env_name o result h e = ground arith

  select-IsGuarded :
      (env : Option Text)
      → validate_command is_alphanumeric name cmd ≡ ok tt
      → All (λ b. check_override names name cmd b ≡ ok tt) cmd.environment_overrides
      → IsGuarded cmd (select_for_env cmd env).0 (select_for_env cmd env).1
  unfolding select_for_env
  select-IsGuarded none h hs = default-IsGuarded h
  select-IsGuarded (some env) h hs = elim (Option-cases (lookup env cmd.environment_overrides)) [
    | inl e ↦ rw (e, select_for_env) (default-IsGuarded h)
    | inr (o, e) ↦
        (let (env_name, checked) =
            lookup-All (λ b. check_override names name cmd b ≡ ok tt) env cmd.environment_overrides
              hs e in
          elim (Option-cases o.result) [
            | inl none_given ↦
                rw (e, none_given, select_for_env)
                  (record {
                    secrets = override-secrets env_name o checked;
                    same_protocol = override-protocol env_name o checked;
                    output = (default-IsGuarded h).output;
                  })
            | inr (result, given) ↦
                rw (e, given, select_for_env)
                  (record {
                    secrets = override-secrets env_name o checked;
                    same_protocol = override-protocol env_name o checked;
                    output = override-output env_name o result checked given;
                  })
          ])
  ]

-- The promises for every command of a file, in every environment.
abbrev pub IsGuardedFile : TemplateFile → Type 0
IsGuardedFile file =
    All
      (λ b.
        (env : Option Text) → IsGuarded b.1 (select_for_env b.1 env).0 (select_for_env b.1 env).1)
      file.commands

module _ (is_alphanumeric : ℕ → Bool) where
  check_command-IsGuarded :
      (names : List Text) (name : Text) (cmd : CommandTemplate)
      → check_command is_alphanumeric names (name, cmd) ≡ ok tt
      → (env : Option Text) → IsGuarded cmd (select_for_env cmd env).0 (select_for_env cmd env).1
  unfolding check_command
  check_command-IsGuarded names name cmd h env =
      let (overrides, own) =
        (>>_iff (each (check_override names name cmd) cmd.environment_overrides) _).0 h in
      select-IsGuarded is_alphanumeric names name cmd env own
        ((each_iff (check_override names name cmd) cmd.environment_overrides).0 overrides)

  -- In an accepted file, of the operation that runs in any environment, the secrets that its
  -- authentication and its SQL connection name are declared by the command; it keeps the command's
  -- protocol unless the command opts in to switching; and its result has an output that is not blank.
  -- Template expressions for secrets are not among these secrets.
  pub validate_template_file-IsGuarded :
      (file : TemplateFile)
      → validate_template_file is_alphanumeric file ≡ ok tt
      → IsGuardedFile file
  unfolding validate_template_file
  validate_template_file-IsGuarded file h =
      let commands =
        (each_iff (check_command is_alphanumeric (env_names file.environments)) file.commands).0
          (ground arith) in
      All-map _ _ file.commands
        (λ b c. check_command-IsGuarded (env_names file.environments) b.0 b.1 c) commands

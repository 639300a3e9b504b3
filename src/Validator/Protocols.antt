-- ===== src/Validator/Protocols.antt =====
-- The checks of src/template/validator.rs for each protocol. A relative path of a sandbox is split
-- at its slashes, as `Path::components` does on Unix.
use earl.Prelude.{
  ℕ, Bool, true, false, not, ◌&&◌, ◌||◌, Option, none, some, List, [], ◌∷◌, ◌==◌, if◌then◌else◌,
  some_and, is_some, ok, ◌>>◌, bail_if, each,
}
use earl.Text.{Text, codes, is_blank, eq_ignore_ascii_case, starts_with, contains}
use earl.Json.{is_array, is_object}
use earl.Schema.{AuthTemplate, api_key, ApiKeyLocation, TlsTemplate, TransportTemplate}
use earl.Schema.Operations.{
  HttpOperationTemplate, GraphqlOperationTemplate, GrpcOperationTemplate, BashOperationTemplate,
  SqlOperationTemplate, BashSandboxTemplate,
}
use earl.Schema.Commands.{OperationTemplate, http, graphql, grpc, bash, sql, browser}
use earl.Validator.{ValidationError}
use earl.Validator.Parts.{Check, includes, validate_auth, validate_body, validate_transport}

-- `if let Some(x) = option { check(x)?; }`.
abbrev pub check_some {ℓ} : {A : Type ℓ} → (A → Check) → Option A → Check
check_some f none = ok tt
check_some f (some a) = f a

unfoldable pub validate_http_operation : Text → HttpOperationTemplate → List Text → Check
unfolding is_blank validate_auth validate_body validate_transport
validate_http_operation command_name operation allowed_secrets =
    bail_if (is_blank operation.url) (ValidationError.empty_url command_name)
    >> (bail_if (is_blank operation.method) (ValidationError.empty_method command_name)
        >> (check_some (λ auth. validate_auth command_name auth allowed_secrets) operation.auth
            >> (check_some (validate_body command_name) operation.body
                >> validate_transport command_name operation.transport)))

unfoldable pub validate_graphql_operation : Text → GraphqlOperationTemplate → List Text → Check
unfolding is_blank eq_ignore_ascii_case validate_auth validate_transport
validate_graphql_operation command_name operation allowed_secrets =
    bail_if (is_blank operation.url) (ValidationError.empty_url command_name)
    >> (bail_if (is_blank operation.graphql.query) (ValidationError.empty_query command_name)
        >> (bail_if
              (not (is_blank operation.method)
                && not (eq_ignore_ascii_case operation.method (codes "POST")))
              (ValidationError.graphql_method command_name)
            >> (check_some (λ auth. validate_auth command_name auth allowed_secrets) operation.auth
                >> validate_transport command_name operation.transport)))

abbrev pub is_header_location : AuthTemplate → Bool
is_header_location (api_key ApiKeyLocation.header name secret) = true
is_header_location (api_key _ name secret) = false
is_header_location _ = true

abbrev pub has_min_version : Option TlsTemplate → Bool
has_min_version none = false
has_min_version (some tls) = is_some tls.min_version

unfoldable pub validate_grpc_auth : Text → List Text → AuthTemplate → Check
unfolding validate_auth
validate_grpc_auth command_name allowed_secrets auth =
    bail_if (not (is_header_location auth)) (ValidationError.api_key_location command_name)
    >> validate_auth command_name auth allowed_secrets

unfoldable pub validate_grpc_transport : Text → TransportTemplate → Check
validate_grpc_transport command_name transport =
    bail_if (is_some transport.proxy_profile) (ValidationError.grpc_proxy_profile command_name)
    >> bail_if (has_min_version transport.tls) (ValidationError.grpc_min_version command_name)

unfoldable pub validate_grpc_operation : Text → GrpcOperationTemplate → List Text → Check
unfolding is_blank validate_grpc_auth validate_grpc_transport validate_transport
validate_grpc_operation command_name operation allowed_secrets =
    bail_if (is_blank operation.url) (ValidationError.empty_url command_name)
    >> (bail_if (is_blank operation.grpc.service) (ValidationError.empty_service command_name)
        >> (bail_if (is_blank operation.grpc.method) (ValidationError.empty_method command_name)
            >> (bail_if (some_and is_blank operation.grpc.descriptor_set_file)
                  (ValidationError.empty_descriptor_set_file command_name)
                >> (bail_if
                      (some_and (λ body. not (is_object body) && not (is_array body))
                        operation.grpc.body)
                      (ValidationError.bad_grpc_body command_name)
                    >> (check_some (validate_grpc_auth command_name allowed_secrets) operation.auth
                        >> (check_some (validate_grpc_transport command_name) operation.transport
                            >> validate_transport command_name operation.transport))))))

-- The components of a path, between its slashes.
add_to_first : ℕ → List Text → List Text
add_to_first c [] = (c ∷ []) ∷ []
add_to_first c (part ∷ parts) = (c ∷ part) ∷ parts

unfoldable pub components : Text → List Text
unfolding add_to_first
components [] = [] ∷ []
components (c ∷ path) =
    let rest = components path in if c == b'/' then [] ∷ rest else add_to_first c rest

abbrev pub is_absolute : Text → Bool
is_absolute path = starts_with (codes "/") path || starts_with (codes "\\") path

unfoldable pub validate_writable_path : Text → Text → Check
unfolding starts_with includes components
validate_writable_path command_name path =
    bail_if (is_absolute path) (ValidationError.absolute_path command_name path)
    >> bail_if (includes (components path) (codes ".."))
        (ValidationError.parent_path command_name path)

abbrev pub writable_paths : Option BashSandboxTemplate → List Text
writable_paths none = []
writable_paths (some sandbox) = elim sandbox.writable_paths [ none ↦ [] | some paths ↦ paths ]

unfoldable pub validate_bash_operation : Text → BashOperationTemplate → Check
unfolding is_blank each validate_writable_path validate_transport
validate_bash_operation command_name operation =
    bail_if (is_blank operation.bash.script) (ValidationError.empty_script command_name)
    >> (each (validate_writable_path command_name) (writable_paths operation.bash.sandbox)
        >> validate_transport command_name operation.transport)

unfoldable pub validate_sql_operation : Text → SqlOperationTemplate → List Text → Check
unfolding is_blank contains includes validate_transport
validate_sql_operation command_name operation allowed_secrets =
    bail_if (is_blank operation.sql.query) (ValidationError.empty_query command_name)
    >> (bail_if
          (contains operation.sql.query (codes "{{") || contains operation.sql.query (codes "}}"))
          (ValidationError.query_template command_name)
        >> (bail_if (is_blank operation.sql.connection_secret)
              (ValidationError.empty_connection_secret command_name)
            >> (bail_if (not (includes allowed_secrets operation.sql.connection_secret))
                  (ValidationError.undeclared_secret command_name operation.sql.connection_secret)
                >> validate_transport command_name operation.transport)))

unfoldable pub validate_operation : Text → OperationTemplate → List Text → Check
unfolding validate_http_operation validate_graphql_operation validate_grpc_operation
    validate_bash_operation validate_sql_operation
validate_operation command_name (http op) allowed_secrets =
    validate_http_operation command_name op allowed_secrets
validate_operation command_name (graphql op) allowed_secrets =
    validate_graphql_operation command_name op allowed_secrets
validate_operation command_name (grpc op) allowed_secrets =
    validate_grpc_operation command_name op allowed_secrets
validate_operation command_name (bash op) allowed_secrets = validate_bash_operation command_name op
validate_operation command_name (sql op) allowed_secrets =
    validate_sql_operation command_name op allowed_secrets
validate_operation command_name browser allowed_secrets = ok tt

-- ===== src/Validator/Secrets.antt =====
-- The secrets that the authentication and the SQL connection of an accepted operation name:
-- src/template/validator.rs.
use earl.Prelude.{
  true, ◌≡◌, ◌↔◌, Option, none, some, List, [], ◌∷◌, arith, All, Any, Any-map, any_iff, ok,
}
use earl.Text.{Text, text_eq}
use earl.Text.Laws.{text_eq_iff}
use earl.Schema.{AuthTemplate, api_key, bearer, basic, o_auth2_profile}
use earl.Schema.Commands.{OperationTemplate, http, graphql, grpc, bash, sql, browser}
use earl.Validator.Parts.{includes, ensure_secret, validate_auth}
use earl.Validator.Protocols.{
  check_some, validate_http_operation, validate_graphql_operation, validate_grpc_auth,
  validate_grpc_operation, validate_sql_operation, validate_operation,
}

abbrev pub Declared : List Text → Text → Type 0
Declared names name = Any (λ s. s ≡ name) names

pub includes_iff :
    (names : List Text) (name : Text) → (includes names name ≡ true) ↔ Declared names name
unfolding includes
includes_iff names name =
    let (to, from) = any_iff (λ s. text_eq s name) names in
    (
      λ h. Any-map _ _ names (λ s. (text_eq_iff s name).0) (to h),
      λ h. from (Any-map _ _ names (λ s. (text_eq_iff s name).1) h),
    )

-- The secrets that an authentication names, and those that an operation names.
abbrev pub auth_secrets : AuthTemplate → List Text
auth_secrets AuthTemplate.none = []
auth_secrets (api_key location name secret) = secret ∷ []
auth_secrets (bearer secret) = secret ∷ []
auth_secrets (basic username password_secret) = password_secret ∷ []
auth_secrets (o_auth2_profile profile) = []

abbrev pub some_secrets : Option AuthTemplate → List Text
some_secrets none = []
some_secrets (some a) = auth_secrets a

abbrev pub operation_secrets : OperationTemplate → List Text
operation_secrets (http op) = some_secrets op.auth
operation_secrets (graphql op) = some_secrets op.auth
operation_secrets (grpc op) = some_secrets op.auth
operation_secrets (bash op) = []
operation_secrets (sql op) = op.sql.connection_secret ∷ []
operation_secrets browser = []

ensure_secret-Declared :
    (name : Text) (allowed : List Text) (secret : Text)
    → ensure_secret name allowed secret ≡ ok tt
    → Declared allowed secret
unfolding ensure_secret
ensure_secret-Declared name allowed secret h = (includes_iff allowed secret).0 (ground arith)

validate_auth-Declared :
    (name : Text) (a : AuthTemplate) (allowed : List Text)
    → validate_auth name a allowed ≡ ok tt
    → All (Declared allowed) (auth_secrets a)
unfolding validate_auth
validate_auth-Declared name AuthTemplate.none allowed h = tt
validate_auth-Declared name (api_key l n s) allowed h =
    (ensure_secret-Declared name allowed s h, tt)
validate_auth-Declared name (bearer s) allowed h = (ensure_secret-Declared name allowed s h, tt)
validate_auth-Declared name (basic u s) allowed h = (ensure_secret-Declared name allowed s h, tt)
validate_auth-Declared name (o_auth2_profile p) allowed h = tt

some_auth-Declared :
    (name : Text) (a : Option AuthTemplate) (allowed : List Text)
    → check_some (λ x. validate_auth name x allowed) a ≡ ok tt
    → All (Declared allowed) (some_secrets a)
some_auth-Declared name none allowed h = tt
some_auth-Declared name (some a) allowed h = validate_auth-Declared name a allowed h

grpc_auth-Declared :
    (name : Text) (a : Option AuthTemplate) (allowed : List Text)
    → check_some (validate_grpc_auth name allowed) a ≡ ok tt
    → All (Declared allowed) (some_secrets a)
unfolding validate_grpc_auth
grpc_auth-Declared name none allowed h = tt
grpc_auth-Declared name (some a) allowed h = validate_auth-Declared name a allowed (ground arith)

-- An accepted operation names no secret outside the command's list: neither its authentication nor,
-- for SQL, its connection.
pub validate_operation-Declared :
    (name : Text) (op : OperationTemplate) (allowed : List Text)
    → validate_operation name op allowed ≡ ok tt
    → All (Declared allowed) (operation_secrets op)
unfolding validate_operation validate_http_operation validate_graphql_operation
    validate_grpc_operation validate_sql_operation
validate_operation-Declared name (http op) allowed h =
    some_auth-Declared name op.auth allowed (ground arith)
validate_operation-Declared name (graphql op) allowed h =
    some_auth-Declared name op.auth allowed (ground arith)
validate_operation-Declared name (grpc op) allowed h =
    grpc_auth-Declared name op.auth allowed (ground arith)
validate_operation-Declared name (bash op) allowed h = tt
validate_operation-Declared name (sql op) allowed h =
    ((includes_iff allowed op.sql.connection_secret).0 (ground arith), tt)
validate_operation-Declared name browser allowed h = tt

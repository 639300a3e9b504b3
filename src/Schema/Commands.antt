-- ===== src/Schema/Commands.antt =====
-- Template files and commands: src/template/schema.rs, with every protocol feature enabled. The
-- operation of the browser protocol is held as a parameterless constructor: the operations here
-- read nothing of it.
use earl.Prelude.{ℕ, Bool, false, Option, none, some, List}
use earl.Text.{Text}
use earl.Text.Keys.{Map}
use earl.Policy.{CommandMode}
use earl.Schema.{ParamSpec, AuthTemplate, TransportTemplate, ResultTemplate}
use earl.Schema.Operations.{
  HttpOperationTemplate, GraphqlOperationTemplate, GrpcOperationTemplate, BashOperationTemplate,
  SqlOperationTemplate,
}

pub data OperationTemplate : Type 0 where
  http : HttpOperationTemplate → OperationTemplate
  graphql : GraphqlOperationTemplate → OperationTemplate
  grpc : GrpcOperationTemplate → OperationTemplate
  bash : BashOperationTemplate → OperationTemplate
  sql : SqlOperationTemplate → OperationTemplate
  browser : OperationTemplate

pub data OperationProtocol : Type 0 where
  http graphql grpc bash sql browser : OperationProtocol

unfoldable pub protocol : OperationTemplate → OperationProtocol
protocol (OperationTemplate.http op) = OperationProtocol.http
protocol (OperationTemplate.graphql op) = OperationProtocol.graphql
protocol (OperationTemplate.grpc op) = OperationProtocol.grpc
protocol (OperationTemplate.bash op) = OperationProtocol.bash
protocol (OperationTemplate.sql op) = OperationProtocol.sql
protocol OperationTemplate.browser = OperationProtocol.browser

-- `==` on `OperationProtocol`.
unfoldable pub protocol_eq : OperationProtocol → OperationProtocol → Bool
protocol_eq OperationProtocol.http OperationProtocol.http = Bool.true
protocol_eq OperationProtocol.graphql OperationProtocol.graphql = Bool.true
protocol_eq OperationProtocol.grpc OperationProtocol.grpc = Bool.true
protocol_eq OperationProtocol.bash OperationProtocol.bash = Bool.true
protocol_eq OperationProtocol.sql OperationProtocol.sql = Bool.true
protocol_eq OperationProtocol.browser OperationProtocol.browser = Bool.true
protocol_eq _ _ = false

unfoldable pub transport : OperationTemplate → Option TransportTemplate
transport (OperationTemplate.http op) = op.transport
transport (OperationTemplate.graphql op) = op.transport
transport (OperationTemplate.grpc op) = op.transport
transport (OperationTemplate.bash op) = op.transport
transport (OperationTemplate.sql op) = op.transport
transport OperationTemplate.browser = none

unfoldable pub auth : OperationTemplate → Option AuthTemplate
auth (OperationTemplate.http op) = op.auth
auth (OperationTemplate.graphql op) = op.auth
auth (OperationTemplate.grpc op) = op.auth
auth (OperationTemplate.bash op) = none
auth (OperationTemplate.sql op) = none
auth OperationTemplate.browser = none

unfoldable pub request_url : OperationTemplate → Option Text
request_url (OperationTemplate.http op) = some op.url
request_url (OperationTemplate.graphql op) = some op.url
request_url (OperationTemplate.grpc op) = some op.url
request_url (OperationTemplate.bash op) = none
request_url (OperationTemplate.sql op) = none
request_url OperationTemplate.browser = none

unfoldable pub grpc_service_method : OperationTemplate → Option (Text × Text)
grpc_service_method (OperationTemplate.grpc op) = some (op.grpc.service, op.grpc.method)
grpc_service_method _ = none

unfoldable pub bash_script : OperationTemplate → Option Text
bash_script (OperationTemplate.bash op) = some op.bash.script
bash_script _ = none

unfoldable pub sql_query : OperationTemplate → Option Text
sql_query (OperationTemplate.sql op) = some op.sql.query
sql_query _ = none

unfoldable pub is_streaming : OperationTemplate → Bool
is_streaming (OperationTemplate.http op) = op.stream
is_streaming (OperationTemplate.graphql op) = op.stream
is_streaming (OperationTemplate.grpc op) = op.stream
is_streaming (OperationTemplate.bash op) = op.stream
is_streaming (OperationTemplate.sql op) = false
is_streaming OperationTemplate.browser = false

pub record Annotations : Type 0 where
  pub mode : CommandMode
  pub secrets : List Text
  pub allow_environment_protocol_switching : Bool

pub record ProviderEnvironments : Type 0 where
  pub default : Option Text
  pub secrets : List Text
  pub environments : Map (Map Text)

pub record EnvironmentOverride : Type 0 where
  pub operation : OperationTemplate
  pub result : Option ResultTemplate

pub record CommandTemplate : Type 0 where
  pub title : Text
  pub summary : Text
  pub description : Text
  pub categories : List Text
  pub annotations : Annotations
  pub params : List ParamSpec
  pub operation : OperationTemplate
  pub result : ResultTemplate
  pub environment_overrides : Map EnvironmentOverride

pub record TemplateFile : Type 0 where
  pub version : ℕ
  pub provider : Text
  pub categories : List Text
  pub environments : Option ProviderEnvironments
  pub commands : Map CommandTemplate

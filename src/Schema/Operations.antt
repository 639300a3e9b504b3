-- ===== src/Schema/Operations.antt =====
-- The operation templates of the five protocols: the schema.rs of crates/earl-protocol-http,
-- -grpc, -bash and -sql.
use earl.Prelude.{ℕ, Bool, Option, List}
use earl.Text.{Text}
use earl.Text.Keys.{Map}
use earl.Json.{Value}
use earl.Schema.{AuthTemplate, BodyTemplate, TransportTemplate}

pub record HttpOperationTemplate : Type 0 where
  pub method : Text
  pub url : Text
  pub path : Option Text
  pub query : Option (Map Value)
  pub headers : Option (Map Value)
  pub cookies : Option (Map Value)
  pub auth : Option AuthTemplate
  pub body : Option BodyTemplate
  pub stream : Bool
  pub transport : Option TransportTemplate

pub record GraphqlTemplate : Type 0 where
  pub query : Text
  pub operation_name : Option Text
  pub variables : Option Value

pub record GraphqlOperationTemplate : Type 0 where
  pub method : Text
  pub url : Text
  pub path : Option Text
  pub query : Option (Map Value)
  pub headers : Option (Map Value)
  pub cookies : Option (Map Value)
  pub auth : Option AuthTemplate
  pub graphql : GraphqlTemplate
  pub stream : Bool
  pub transport : Option TransportTemplate

pub record GrpcTemplate : Type 0 where
  pub service : Text
  pub method : Text
  pub body : Option Value
  pub descriptor_set_file : Option Text

pub record GrpcOperationTemplate : Type 0 where
  pub url : Text
  pub headers : Option (Map Value)
  pub auth : Option AuthTemplate
  pub grpc : GrpcTemplate
  pub stream : Bool
  pub transport : Option TransportTemplate

pub record BashSandboxTemplate : Type 0 where
  pub network : Option Bool
  pub writable_paths : Option (List Text)
  pub max_time_ms : Option ℕ
  pub max_output_bytes : Option ℕ
  pub max_memory_bytes : Option ℕ
  pub max_cpu_time_ms : Option ℕ

pub record BashScriptTemplate : Type 0 where
  pub script : Text
  pub env : Option (Map Value)
  pub cwd : Option Text
  pub sandbox : Option BashSandboxTemplate

pub record BashOperationTemplate : Type 0 where
  pub bash : BashScriptTemplate
  pub stream : Bool
  pub transport : Option TransportTemplate

pub record SqlSandboxTemplate : Type 0 where
  pub read_only : Option Bool
  pub max_rows : Option ℕ
  pub max_time_ms : Option ℕ

pub record SqlQueryTemplate : Type 0 where
  pub connection_secret : Text
  pub query : Text
  pub params : Option (List Value)
  pub sandbox : Option SqlSandboxTemplate

pub record SqlOperationTemplate : Type 0 where
  pub sql : SqlQueryTemplate
  pub transport : Option TransportTemplate

-- ===== src/Mcp.antt =====
-- The MCP server: src/mcp/mod.rs. A request gives its response and, beside it, the template call that
-- it made, if it made one. Audit log lines are left out; an error keeps its kind, not its wording.
pub mod Tools
pub mod Search
pub mod Server
pub mod Gate
pub mod Visible
pub mod Listing
pub mod Responses
pub mod Ranking
pub mod Frames
pub mod Session
pub mod Auth
pub mod Http
mod Tests
use earl.Prelude.{ℕ, Bool, true, false, not, ◌&&◌, ◌||◌, Option, none, some, List, if◌then◌else◌}
use earl.Text.{Text}
use earl.Text.Keys.{Map}
use earl.Json.{Value}
use earl.Schema.{ParamSpec}
use earl.Policy.{PolicyRule, CommandMode, is_allow, evaluate}
use earl.Catalog.{TemplateCatalog, TemplateCatalogEntry}
use earl.Expression.Binder.{BindError}

pub data McpMode : Type 0 where
  full discovery : McpMode

-- `Subject`: the claim `sub`, and `jti`.
pub record Subject : Type 0 where
  pub sub : Text
  pub jti : Option Text

-- The parts of `McpState` that the handlers read.
pub record McpState : Type 0 where
  pub catalog : TemplateCatalog
  pub mode : McpMode
  pub auto_yes : Bool
  pub policies : List PolicyRule
  pub active_env : Option Text

pub record JsonRpcRequest : Type 0 where
  pub jsonrpc : Text
  pub method : Text
  pub params : Option Value
  pub id : Option Value

pub data RpcFailure : Type 0 where
  parse_error invalid_request : RpcFailure
  write_disabled : RpcFailure
  not_authorized unknown_tool unknown_discovery_tool : (name : Text) → RpcFailure
  undecodable_params empty_query : RpcFailure
  invalid_mode_filter method_not_found : (name : Text) → RpcFailure
  unbound_arguments : BindError → RpcFailure
  execution_failed : RpcFailure

-- The code of an error, without its minus sign.
unfoldable pub code : RpcFailure → ℕ
code RpcFailure.parse_error = 32700
code RpcFailure.invalid_request = 32600
code RpcFailure.write_disabled = 32001
code (RpcFailure.not_authorized name) = 32001
code (RpcFailure.method_not_found name) = 32601
code (RpcFailure.unbound_arguments e) = 32603
code RpcFailure.execution_failed = 32603
code _ = 32602

pub record JsonRpcResponse : Type 0 where
  pub id : Value
  pub result : Option Value
  pub error : Option RpcFailure

unfoldable pub success : Value → Value → JsonRpcResponse
success id result = record { id = id; result = some result; error = none }

unfoldable pub failure : Value → RpcFailure → JsonRpcResponse
failure id e = record { id = id; result = none; error = some e }

-- The arguments of tools/call, and of the tool that calls a discovered tool.
pub record ToolCallParams : Type 0 where
  pub name : Text
  pub arguments : Map Value

pub record DiscoverySearchArgs : Type 0 where
  pub query : Text
  pub limit : ℕ
  pub mode : Option Text
  pub provider : Option Text
  pub category : Option Text

-- What other code gives: the decoders that serde derives, the version of the package, the execution of
-- a bound call in the active environment with its redacted output, and the number of a score that is
-- counted in halves.
pub record Outside : Type 0 where
  pub decode_initialize : Value → Option (Option Text)
  pub decode_tool_call : Value → Option ToolCallParams
  pub decode_search : Map Value → Option DiscoverySearchArgs
  pub decode_invoke : Map Value → Option ToolCallParams
  pub perform : TemplateCatalogEntry → Map Value → Option Text → Option Value
  pub version : Text
  pub score_number : ℕ → Value

abbrev pub is_write : CommandMode → Bool
is_write CommandMode.write = true
is_write CommandMode.read = false

-- The filter of build_tools and of handle_discovery_search.
unfoldable pub accessible : McpState → Option Subject → TemplateCatalogEntry → Bool
unfolding evaluate
accessible state none entry = state.auto_yes || not (is_write entry.mode)
accessible state (some subject) entry =
    is_allow (evaluate state.policies subject.sub entry.key entry.mode)

module _ {ℓ} {A : Type ℓ} where
  -- `filter` on an iterator.
  unfoldable pub filter : (A → Bool) → List A → List A
  filter p List.[] = List.[]
  filter p (List.◌∷◌ x xs) = let rest = filter p xs in if p x then List.◌∷◌ x rest else rest

-- `values` of the catalog.
unfoldable pub values : Map TemplateCatalogEntry → List TemplateCatalogEntry
values List.[] = List.[]
values (List.◌∷◌ (key, entry) more) = List.◌∷◌ entry (values more)

-- ===== src/Mcp/Server.antt =====
-- The dispatch of requests: handle_request, handle_initialize, handle_tools_call and what they call in
-- src/mcp/mod.rs.
use earl.Prelude.{
  false, not, ◌&&◌, Option, none, some, List, [], ◌∷◌, ◌++◌, map, is_some, if◌then◌else◌, Result,
  ok, err, ◌>>=◌, bail_if, or_fail,
}
use earl.Text.{Text, codes, text_eq, to_ascii_lowercase}
use earl.Text.Keys.{Map}
use earl.Json.{Value, json_object, json_array}
use earl.Policy.{is_allow, evaluate}
use earl.Catalog.{TemplateCatalogEntry, get}
use earl.Expression.{CallExpression}
use earl.Expression.Binder.{bind_arguments}
use earl.Mcp.{
  McpMode, full, discovery, McpState, Subject, JsonRpcRequest, JsonRpcResponse, RpcFailure,
  ToolCallParams, Outside, accessible, is_write, filter, values, success, failure,
}
use earl.Mcp.Tools.{tool_from_entry, build_discovery_tools, search_tool_name, call_tool_name}
use earl.Mcp.Search.{handle_discovery_search}

abbrev pub jsonrpc_version : Text
jsonrpc_version = codes "2.0"

abbrev pub default_protocol_version : Text
default_protocol_version = codes "2024-11-05"

-- A template call that was made: the entry and its bound arguments.
abbrev pub Call : Type 0
Call = TemplateCatalogEntry × Map Value

-- A handler that may make a call.
abbrev pub Handled : Type 0
Handled = Option Call × Result RpcFailure Value

abbrev pub no_call : Result RpcFailure Value → Handled
no_call result = (none, result)

unfoldable pub check_policy :
    McpState → Option Subject → Text → TemplateCatalogEntry → Result RpcFailure (Unit {0})
unfolding evaluate
check_policy state none tool_key entry = ok tt
check_policy state (some subject) tool_key entry =
    bail_if (not (is_allow (evaluate state.policies subject.sub tool_key entry.mode)))
      (RpcFailure.not_authorized tool_key)

-- The lookup and the gates of handle_tools_call and of handle_discovery_invoke.
unfoldable pub admitted_entry :
    McpState → Option Subject → Text → Result RpcFailure TemplateCatalogEntry
unfolding to_ascii_lowercase get check_policy
admitted_entry state subject name = do
  entry ← or_fail (get (to_ascii_lowercase name) state.catalog) (RpcFailure.unknown_tool name)
  writable ←
      bail_if (is_write entry.mode && (not state.auto_yes && not (is_some subject)))
        RpcFailure.write_disabled
  authorized ← check_policy state subject (to_ascii_lowercase name) entry
  ok entry

unfoldable pub handle_initialize_value :
    Text → Option (Option Text) → McpState → Result RpcFailure Value
handle_initialize_value version none state = err RpcFailure.undecodable_params
handle_initialize_value version (some protocol_version) state = ok (
    json_object (
      (
        codes "protocolVersion",
        Value.string (elim protocol_version [ none ↦ default_protocol_version | some v ↦ v ]),
      )
      ∷ (
        codes "capabilities",
        json_object
            ((codes "tools", json_object ((codes "listChanged", Value.bool false) ∷ [])) ∷ []),
      )
      ∷ (
        codes "serverInfo",
        json_object (
            (codes "name", Value.string (codes "earl"))
            ∷ (codes "version", Value.string version)
            ∷ (
              codes "environment",
              Value.string (elim state.active_env [ none ↦ codes "(none)" | some env ↦ env ]),
            )
            ∷ []),
      )
      ∷ elim state.mode [
        | full ↦ []
        | discovery ↦
            (
              codes "instructions",
              Value.string (
                  codes "Use `earl.tool_search` to discover relevant tools, then call "
                  ++ codes "`earl.tool_call` with the selected tool name and arguments."),
            )
            ∷ []
      ]))

-- `params`, or an empty object.
abbrev pub params_or_empty : Option Value → Value
params_or_empty none = json_object []
params_or_empty (some value) = value

abbrev pub call_of : TemplateCatalogEntry → Map Value → CallExpression
call_of entry arguments = record {
  provider = entry.provider;
  command = entry.command;
  positional_args = [];
  named_args = arguments;
}

-- The entries that tools/list shows.
unfoldable pub visible_entries : McpState → Option Subject → List TemplateCatalogEntry
unfolding filter accessible values
visible_entries state subject = filter (accessible state subject) (values state.catalog.entries)

unfoldable pub tools_in_mode : McpMode → McpState → Option Subject → List Value
unfolding visible_entries tool_from_entry build_discovery_tools
tools_in_mode full state subject = map tool_from_entry (visible_entries state subject)
tools_in_mode discovery state subject = build_discovery_tools

unfoldable pub build_tools : McpState → Option Subject → List Value
unfolding tools_in_mode
build_tools state subject = tools_in_mode state.mode state subject

abbrev pub respond : Value → Result RpcFailure Value → JsonRpcResponse
respond id (ok value) = success id value
respond id (err e) = failure id e

abbrev pub map_id : Option Value → (Value → JsonRpcResponse) → Option JsonRpcResponse
map_id none f = none
map_id (some id) f = some (f id)

module _ (outside : Outside) where
  unfoldable pub handle_initialize : Option Value → McpState → Result RpcFailure Value
  unfolding handle_initialize_value
  handle_initialize params state =
      handle_initialize_value outside.version (outside.decode_initialize (params_or_empty params))
        state

  -- Behind the binding of the arguments everything is the execution of the call.
  unfoldable pub execute_template_tool : TemplateCatalogEntry → Map Value → McpState → Handled
  unfolding bind_arguments
  execute_template_tool entry arguments state =
      elim (bind_arguments (call_of entry arguments) entry.template.params) [
        | err e ↦ (none, err (RpcFailure.unbound_arguments e))
        | ok bound_args ↦ (
          some (entry, bound_args),
          or_fail (outside.perform entry bound_args state.active_env) RpcFailure.execution_failed,
        )
      ]

  -- The gates, and behind them the call.
  unfoldable pub call_admitted : McpState → Option Subject → ToolCallParams → Handled
  unfolding admitted_entry execute_template_tool
  call_admitted state subject params = elim (admitted_entry state subject params.name) [
    | err e ↦ (none, err e)
    | ok entry ↦ execute_template_tool entry params.arguments state
  ]

  unfoldable pub handle_discovery_invoke : Map Value → McpState → Option Subject → Handled
  unfolding call_admitted
  handle_discovery_invoke arguments state subject = elim (outside.decode_invoke arguments) [
    | none ↦ (none, err RpcFailure.undecodable_params)
    | some args ↦ call_admitted state subject args
  ]

  unfoldable pub handle_discovery_tools_call : ToolCallParams → McpState → Option Subject → Handled
  unfolding text_eq handle_discovery_search handle_discovery_invoke
  handle_discovery_tools_call params state subject =
      if text_eq params.name search_tool_name
      then no_call (handle_discovery_search outside params.arguments state subject)
      else if text_eq params.name call_tool_name
      then handle_discovery_invoke params.arguments state subject
      else (none, err (RpcFailure.unknown_discovery_tool params.name))

  -- By the mode of the server.
  unfoldable pub call_in_mode : McpMode → ToolCallParams → McpState → Option Subject → Handled
  unfolding call_admitted handle_discovery_tools_call
  call_in_mode full params state subject = call_admitted state subject params
  call_in_mode discovery params state subject = handle_discovery_tools_call params state subject

  unfoldable pub handle_tools_call : Option Value → McpState → Option Subject → Handled
  unfolding call_in_mode
  handle_tools_call params state subject =
      elim (outside.decode_tool_call (params_or_empty params)) [
        | none ↦ (none, err RpcFailure.undecodable_params)
        | some call ↦ call_in_mode state.mode call state subject
      ]

  -- The `match` on the method; `none` for a notification without an answer.
  unfoldable pub dispatch : JsonRpcRequest → McpState → Option Subject → Option Handled
  unfolding text_eq handle_initialize build_tools handle_tools_call
  dispatch request state subject =
      if text_eq request.method (codes "initialize")
      then some (no_call (handle_initialize request.params state))
      else if text_eq request.method (codes "notifications/initialized")
      then none
      else if text_eq request.method (codes "ping")
      then some (no_call (ok (json_object [])))
      else if text_eq request.method (codes "tools/list")
      then some (
          no_call (ok (json_object ((codes "tools", json_array (build_tools state subject)) ∷ []))))
      else if text_eq request.method (codes "tools/call")
      then some (handle_tools_call request.params state subject)
      else some (no_call (err (RpcFailure.method_not_found request.method)))

  unfoldable pub handle_request :
      JsonRpcRequest → McpState → Option Subject → Option Call × Option JsonRpcResponse
  unfolding text_eq dispatch success failure
  handle_request request state subject =
      if not (text_eq request.jsonrpc jsonrpc_version)
      then (none, map_id request.id (λ id. failure id RpcFailure.invalid_request))
      else elim (dispatch request state subject) [
        | none ↦ (none, none)
        | some (call, result) ↦ (call, map_id request.id (λ id. respond id result))
      ]

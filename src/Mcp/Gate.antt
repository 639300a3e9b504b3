-- ===== src/Mcp/Gate.antt =====
-- Which template calls the server makes: src/mcp/mod.rs with src/mcp/policy.rs and
-- src/expression/binder.rs.
use earl.Prelude.{
  some-injective, Bool, true, false, not, ◌&&◌, ◌≡◌, refl, ◌↔◌, inl, inr, Bool-cases, Option, none,
  some, Option-cases, is_some, Result, Result-cases, ok, bind-eq_ok, bail_if, or_fail,
  or_fail-eq_ok, ok-injective, subst,
}
use earl.Text.{Text, codes, to_ascii_lowercase, text_eq}
use earl.Text.Keys.{Map}
use earl.Json.{Value}
use earl.Policy.{PolicyDecision, is_allow, evaluate}
use earl.Catalog.{TemplateCatalogEntry, get}
use earl.Expression.Binder.{bind_arguments}
use earl.Expression.Binder.Typed.{IsBound, bind_arguments-IsBound}
use earl.Mcp.{
  McpMode, full, discovery, McpState, Subject, JsonRpcRequest, RpcFailure, ToolCallParams, Outside,
  is_write,
}
use earl.Mcp.Tools.{search_tool_name, call_tool_name}
use earl.Mcp.Server.{
  params_or_empty, no_call, jsonrpc_version, Call, Handled, check_policy, admitted_entry,
  execute_template_tool, call_admitted, handle_discovery_invoke, handle_discovery_tools_call,
  call_in_mode, handle_tools_call, dispatch, handle_request, call_of,
}

false-ne-true : false ≡ true → ⊥
false-ne-true h = cc

-- Without a subject a write needs the flag --yes; with one the policy decides.
abbrev pub Permits : McpState → Option Subject → Text → TemplateCatalogEntry → Type 0
Permits state none tool_key entry = is_write entry.mode ≡ true → state.auto_yes ≡ true
Permits state (some subject) tool_key entry =
    evaluate state.policies subject.sub tool_key entry.mode ≡ PolicyDecision.allow

-- The entry stands in the catalog under the name in lower case, and may be called.
pub record IsAdmitted (state : McpState) (subject : Option Subject) (name : Text)
    (entry : TemplateCatalogEntry) : Type 0 where
  pub found : get (to_ascii_lowercase name) state.catalog ≡ some entry
  pub permitted : Permits state subject (to_ascii_lowercase name) entry

pub is_allow_iff : (d : PolicyDecision) → (is_allow d ≡ true) ↔ (d ≡ PolicyDecision.allow)
is_allow_iff PolicyDecision.allow = (λ _. refl, λ _. refl)
is_allow_iff PolicyDecision.deny = (λ h. cc, λ h. cc)

write_gate :
    (write yes_flag : Bool)
    → (bail_if (write && (not yes_flag && true)) RpcFailure.write_disabled ≡ ok tt)
      ↔ (write ≡ true → yes_flag ≡ true)
write_gate true true = (λ _ _. refl, λ _. refl)
write_gate true false = (λ h. cc, λ h. absurd (false-ne-true (h refl)))
write_gate false true = (λ _ _. refl, λ _. refl)
write_gate false false = (λ _ h. absurd (false-ne-true h), λ _. refl)

open_gate :
    (write yes_flag : Bool)
    → bail_if (write && (not yes_flag && false)) RpcFailure.write_disabled ≡ ok tt
open_gate true true = refl
open_gate true false = refl
open_gate false yes_flag = refl

policy_gate :
    (d : PolicyDecision) (tool_key : Text)
    → (bail_if (not (is_allow d)) (RpcFailure.not_authorized tool_key) ≡ ok tt)
      ↔ (d ≡ PolicyDecision.allow)
policy_gate PolicyDecision.allow tool_key = (λ _. refl, λ _. refl)
policy_gate PolicyDecision.deny tool_key = (λ h. cc, λ h. cc)

module _ (state : McpState) where
  abbrev write_check : Option Subject → TemplateCatalogEntry → Result RpcFailure (Unit {0})
  write_check subject entry =
      bail_if (is_write entry.mode && (not state.auto_yes && not (is_some subject)))
        RpcFailure.write_disabled

  gates_iff :
      (subject : Option Subject) (tool_key : Text) (entry : TemplateCatalogEntry)
      → ((write_check subject entry ≡ ok tt) × (check_policy state subject tool_key entry ≡ ok tt))
        ↔ Permits state subject tool_key entry
  unfolding check_policy
  gates_iff none tool_key entry = (
    λ (w, _). (write_gate (is_write entry.mode) state.auto_yes).0 w,
    λ h. ((write_gate (is_write entry.mode) state.auto_yes).1 h, refl),
  )
  gates_iff (some subject) tool_key entry =
      let (to, from) =
        policy_gate (evaluate state.policies subject.sub tool_key entry.mode) tool_key in
      (λ (_, p). to p, λ h. (open_gate (is_write entry.mode) state.auto_yes, from h))

  abbrev found_entry : Text → Result RpcFailure TemplateCatalogEntry
  found_entry name =
      or_fail (get (to_ascii_lowercase name) state.catalog) (RpcFailure.unknown_tool name)

  pub admitted_entry-IsAdmitted :
      (subject : Option Subject) (name : Text) (entry : TemplateCatalogEntry)
      → admitted_entry state subject name ≡ ok entry
      → IsAdmitted state subject name entry
  unfolding admitted_entry
  admitted_entry-IsAdmitted subject name entry h =
      let (e, found, h1) = bind-eq_ok (found_entry name) _ h in
      let (_, writes, h2) = bind-eq_ok (write_check subject e) _ h1 in
      let (_, allowed, h3) =
        bind-eq_ok (check_policy state subject (to_ascii_lowercase name) e) _ h2 in
      subst (IsAdmitted state subject name) (ok-injective h3) (record {
        found = or_fail-eq_ok (get (to_ascii_lowercase name) state.catalog) _ found;
        permitted = (gates_iff subject (to_ascii_lowercase name) e).0 (writes, allowed);
      })

  pub IsAdmitted-admitted_entry :
      (subject : Option Subject) (name : Text) (entry : TemplateCatalogEntry)
      → IsAdmitted state subject name entry
      → admitted_entry state subject name ≡ ok entry
  unfolding admitted_entry
  IsAdmitted-admitted_entry subject name entry a =
      let (writes, allowed) = (gates_iff subject (to_ascii_lowercase name) entry).1 a.permitted in
      rw (a.found, writes, allowed) refl

-- A call that the server makes: its entry is admitted, and its arguments are bound to the parameters
-- of the entry.
pub record IsGated (state : McpState) (subject : Option Subject) (call : Call) : Type 0 where
  pub name : Text
  pub admitted : IsAdmitted state subject name call.0
  pub arguments : Map Value
  pub bound : IsBound (call_of call.0 arguments) call.0.template.params call.1

abbrev AllGated : McpState → Option Subject → Handled → Type 0
AllGated state subject handled = (call : Call) → handled.0 ≡ some call → IsGated state subject call

module _ (outside : Outside) (state : McpState) (subject : Option Subject) where
  execute-IsGated :
      (name : Text) (entry : TemplateCatalogEntry) (arguments : Map Value)
      → IsAdmitted state subject name entry
      → AllGated state subject (execute_template_tool outside entry arguments state)
  unfolding execute_template_tool
  execute-IsGated name entry arguments a call =
      elim (Result-cases (bind_arguments (call_of entry arguments) entry.template.params)) [
        | inr (e, refused) ↦ rw (refused, execute_template_tool) (λ h. cc)
        | inl (bound_args, bound) ↦
            rw (bound, execute_template_tool)
              (λ h. subst (IsGated state subject) (some-injective h) (record {
                name = name;
                admitted = a;
                arguments = arguments;
                bound =
                    bind_arguments-IsBound (call_of entry arguments) entry.template.params
                      bound_args bound;
              }))
      ]

  call_admitted-AllGated :
      (params : ToolCallParams)
      → AllGated state subject (call_admitted outside state subject params)
  unfolding call_admitted
  call_admitted-AllGated params call =
      elim (Result-cases (admitted_entry state subject params.name)) [
        | inr (e, refused) ↦ rw (refused, call_admitted) (λ h. cc)
        | inl (entry, admitted) ↦
            rw (admitted, call_admitted)
              (execute-IsGated params.name entry params.arguments
                (admitted_entry-IsAdmitted state subject params.name entry admitted) call)
      ]

  invoke-AllGated :
      (arguments : Map Value)
      → AllGated state subject (handle_discovery_invoke outside arguments state subject)
  unfolding handle_discovery_invoke
  invoke-AllGated arguments call = elim (Option-cases (outside.decode_invoke arguments)) [
    | inl bad ↦ rw (bad, handle_discovery_invoke) (λ h. cc)
    | inr (args, e) ↦ rw (e, handle_discovery_invoke) (call_admitted-AllGated args call)
  ]

  discovery-AllGated :
      (params : ToolCallParams)
      → AllGated state subject (handle_discovery_tools_call outside params state subject)
  unfolding handle_discovery_tools_call
  discovery-AllGated params call = elim (Bool-cases (text_eq params.name search_tool_name)) [
    | inl search_tool ↦ rw search_tool (λ h. cc)
    | inr other ↦ elim (Bool-cases (text_eq params.name call_tool_name)) [
      | inl call_tool ↦ rw (other, call_tool) (invoke-AllGated params.arguments call)
      | inr neither ↦ rw (other, neither) (λ h. cc)
    ]
  ]

  call_in_mode-AllGated :
      (mode : McpMode) (params : ToolCallParams)
      → AllGated state subject (call_in_mode outside mode params state subject)
  unfolding call_in_mode
  call_in_mode-AllGated full params = call_admitted-AllGated params
  call_in_mode-AllGated discovery params = discovery-AllGated params

  tools_call-AllGated :
      (params : Option Value)
      → AllGated state subject (handle_tools_call outside params state subject)
  unfolding handle_tools_call
  tools_call-AllGated params call =
      elim (Option-cases (outside.decode_tool_call (params_or_empty params))) [
        | inl bad ↦ rw (bad, handle_tools_call) (λ h. cc)
        | inr (args, e) ↦ rw (e, handle_tools_call) (call_in_mode-AllGated state.mode args call)
      ]

  dispatch-AllGated :
      (request : JsonRpcRequest) (handled : Handled)
      → dispatch outside request state subject ≡ some handled
      → AllGated state subject handled
  unfolding dispatch
  dispatch-AllGated request handled =
      elim (Bool-cases (text_eq request.method (codes "initialize"))) [
        | inl e ↦ rw e (λ h. without_call handled h)
        | inr e ↦ elim (Bool-cases (text_eq request.method (codes "notifications/initialized"))) [
          | inl f ↦ rw (e, f) (λ h. cc)
          | inr f ↦ elim (Bool-cases (text_eq request.method (codes "ping"))) [
            | inl g ↦ rw (e, f, g) (λ h. without_call handled h)
            | inr g ↦ elim (Bool-cases (text_eq request.method (codes "tools/list"))) [
              | inl i ↦ rw (e, f, g, i) (λ h. without_call handled h)
              | inr i ↦ elim (Bool-cases (text_eq request.method (codes "tools/call"))) [
                | inl j ↦
                    rw (e, f, g, i, j)
                      (λ h.
                        subst (AllGated state subject) (some-injective h)
                          (tools_call-AllGated request.params))
                | inr j ↦ rw (e, f, g, i, j) (λ h. without_call handled h)
              ]
            ]
          ]
        ]
      ]
    where
      without_call :
          {result : Result RpcFailure Value} (handled : Handled)
          → some (no_call result) ≡ some handled
          → AllGated state subject handled
      without_call handled h call e = cc

  -- Whatever a request says, a template is called only if its entry stands in the catalog under the
  -- name of the call, in lower case; if the policy allows the subject that call or, without a subject,
  -- the entry only reads or the server runs with --yes; and with arguments that are bound to the
  -- parameters of the entry.
  pub handle_request-IsGated :
      (request : JsonRpcRequest) (call : Call)
      → (handle_request outside request state subject).0 ≡ some call
      → IsGated state subject call
  unfolding handle_request
  handle_request-IsGated request call =
      elim (Bool-cases (text_eq request.jsonrpc jsonrpc_version)) [
        | inr bad ↦ rw bad (λ h. cc)
        | inl good ↦ elim (Option-cases (dispatch outside request state subject)) [
          | inl silent ↦ rw (good, silent, handle_request) (λ h. cc)
          | inr ((made, result), e) ↦
              rw (good, e, handle_request) (dispatch-AllGated request (made, result) e call)
        ]
      ]

-- ===== src/Mcp/Responses.antt =====
-- What comes back for a request: handle_request of src/mcp/mod.rs.
use earl.Prelude.{
  true, false, ◌≡◌, refl, ap, ◌∙◌, sym, ◌↔◌, ◌⊎◌, inl, inr, Bool-cases, Option, none, some,
  Option-cases, Result, ok, err, subst, some-injective,
}
use earl.Text.{codes, text_eq}
use earl.Text.Laws.{text_eq_iff}
use earl.Json.{Value}
use earl.Mcp.{
  McpState, Subject, JsonRpcRequest, JsonRpcResponse, RpcFailure, Outside, success, failure,
}
use earl.Mcp.Server.{dispatch, handle_request, jsonrpc_version, respond, map_id}

-- A response carries a result or an error, and not both.
pub data IsDecided : JsonRpcResponse → Type 0 where
  succeeded :
      {r : JsonRpcResponse} (value : Value) → r.result ≡ some value → r.error ≡ none → IsDecided r
  failed : {r : JsonRpcResponse} (e : RpcFailure) → r.result ≡ none → r.error ≡ some e → IsDecided r

-- The notification that the server takes without an answer.
abbrev pub IsInitialized : JsonRpcRequest → Type 0
IsInitialized request =
    (request.jsonrpc ≡ jsonrpc_version) × (request.method ≡ codes "notifications/initialized")

respond-IsDecided : (id : Value) (result : Result RpcFailure Value) → IsDecided (respond id result)
unfolding success failure
respond-IsDecided id (ok value) = IsDecided.succeeded value refl refl
respond-IsDecided id (err e) = IsDecided.failed e refl refl

respond-id : (id : Value) (result : Result RpcFailure Value) → (respond id result).id ≡ id
unfolding success failure
respond-id id (ok value) = refl
respond-id id (err e) = refl

map_id-some :
    (o : Option Value) (f : Value → JsonRpcResponse) (r : JsonRpcResponse)
    → ((id : Value) → (f id).id ≡ id)
    → ((id : Value) → IsDecided (f id))
    → map_id o f ≡ some r
    → (o ≡ some r.id) × IsDecided r
map_id-some none f r keeps decides h = cc
map_id-some (some id) f r keeps decides h = (
  ap (λ x. some x) (sym (keeps id) ∙ ap JsonRpcResponse.id (some-injective h)),
  subst IsDecided (some-injective h) (decides id),
)

map_id-none : (o : Option Value) (f : Value → JsonRpcResponse) → (map_id o f ≡ none) ↔ (o ≡ none)
map_id-none none f = (λ _. refl, λ _. refl)
map_id-none (some id) f = (λ h. cc, λ h. cc)

module _ (outside : Outside) (state : McpState) (subject : Option Subject) where
  dispatch-none :
      (request : JsonRpcRequest)
      → dispatch outside request state subject ≡ none
      → request.method ≡ codes "notifications/initialized"
  unfolding dispatch
  dispatch-none request = elim (Bool-cases (text_eq request.method (codes "initialize"))) [
    | inl e ↦ rw e (λ h. cc)
    | inr e ↦ elim (Bool-cases (text_eq request.method (codes "notifications/initialized"))) [
      | inl f ↦ rw (e, f) (λ h. (text_eq_iff request.method _).0 f)
      | inr f ↦ elim (Bool-cases (text_eq request.method (codes "ping"))) [
        | inl g ↦ rw (e, f, g) (λ h. cc)
        | inr g ↦ elim (Bool-cases (text_eq request.method (codes "tools/list"))) [
          | inl i ↦ rw (e, f, g, i) (λ h. cc)
          | inr i ↦ elim (Bool-cases (text_eq request.method (codes "tools/call"))) [
            | inl j ↦ rw (e, f, g, i, j) (λ h. cc)
            | inr j ↦ rw (e, f, g, i, j) (λ h. cc)
          ]
        ]
      ]
    ]
  ]

  initialized-dispatch :
      (request : JsonRpcRequest)
      → request.method ≡ codes "notifications/initialized"
      → dispatch outside request state subject ≡ none
  unfolding dispatch text_eq
  initialized-dispatch request h = rw h refl

  -- A request gets no response exactly when it has no id or is the notification `initialized`.
  unanswered_iff :
      (request : JsonRpcRequest)
      → ((handle_request outside request state subject).1 ≡ none)
        ↔ ((request.id ≡ none) ⊎ IsInitialized request)
  unfolding handle_request
  unanswered_iff request = elim (Bool-cases (text_eq request.jsonrpc jsonrpc_version)) [
    | inr bad ↦ rw bad (
      λ h. inl ((map_id-none request.id _).0 h),
      λ h. elim h [
        | inl no_id ↦ (map_id-none request.id _).1 no_id
        | inr (good, _) ↦
            (let clash : true ≡ false = sym ((text_eq_iff request.jsonrpc _).1 good) ∙ bad in
              absurd (cc))
      ],
    )
    | inl good ↦ elim (Option-cases (dispatch outside request state subject)) [
      | inl silent ↦
          rw (good, silent, handle_request)
            (
              λ _. inr ((text_eq_iff request.jsonrpc _).0 good, dispatch-none request silent),
              λ _. refl,
            )
      | inr ((made, result), e) ↦
          rw (good, e, handle_request)
            (
              λ h. inl ((map_id-none request.id _).0 h),
              λ h. elim h [
                | inl no_id ↦ (map_id-none request.id _).1 no_id
                | inr (_, method) ↦
                    (let clash : some (made, result) ≡ none =
                        sym e ∙ initialized-dispatch request method in
                      absurd (cc))
              ],
            )
    ]
  ]

  answered :
      (request : JsonRpcRequest) (response : JsonRpcResponse)
      → (handle_request outside request state subject).1 ≡ some response
      → (request.id ≡ some response.id) × IsDecided response
  unfolding handle_request failure
  answered request response = elim (Bool-cases (text_eq request.jsonrpc jsonrpc_version)) [
    | inr bad ↦ rw bad (
        map_id-some request.id _ response (λ id. refl)
          (λ id. IsDecided.failed RpcFailure.invalid_request refl refl))
    | inl good ↦ elim (Option-cases (dispatch outside request state subject)) [
      | inl silent ↦ rw (good, silent, handle_request) (λ h. cc)
      | inr ((made, result), e) ↦
          rw (good, e, handle_request)
            (map_id-some request.id _ response (λ id. respond-id id result)
              (λ id. respond-IsDecided id result))
    ]
  ]

  -- A request gets no response exactly when it has no id or is the notification `initialized`; a
  -- response has the id of its request and carries either a result or an error.
  pub handle_request-responses :
      (request : JsonRpcRequest)
      → (((handle_request outside request state subject).1 ≡ none)
          ↔ ((request.id ≡ none) ⊎ IsInitialized request))
        × ((response : JsonRpcResponse)
            → (handle_request outside request state subject).1 ≡ some response
            → (request.id ≡ some response.id) × IsDecided response)
  handle_request-responses request = (unanswered_iff request, answered request)

-- ===== src/Mcp/Http.antt =====
-- Requests over HTTP: require_jwt_auth of src/mcp/auth.rs and handle_http_rpc of src/mcp/mod.rs, with
-- the routes of run_http. What axum makes of a request body is a parameter.
pub mod Authorized
mod Tests
use earl.Prelude.{Option, none, some, List, Result, ok, err, if◌then◌else◌}
use earl.Text.{Text, codes, strip_prefix}
use earl.Json.{Value}
use earl.Mcp.{McpState, Subject, JsonRpcRequest, JsonRpcResponse, RpcFailure, Outside, failure}
use earl.Mcp.Server.{Call, handle_request}
use earl.Mcp.Auth.{Services, ResolvedJwtConfig, Moment, JwksCache, AuthError}
use earl.Mcp.Auth.Verification.{verify_token}

-- A request to the route /mcp: its header Authorization as text and the request that axum reads from
-- its body, `none` where it refuses the body.
pub record HttpRequest : Type 0 where
  pub authorization : Option Text
  pub body : Option JsonRpcRequest

pub data HttpReply : Type 0 where
  unauthorized : AuthError → HttpReply
  answered : JsonRpcResponse → HttpReply
  accepted : HttpReply

abbrev pub reply_of : Option JsonRpcResponse → HttpReply
reply_of none = HttpReply.accepted
reply_of (some response) = HttpReply.answered response

-- The token behind `Bearer `.
unfoldable pub bearer_token : Option Text → Option Text
unfolding strip_prefix
bearer_token none = none
bearer_token (some header) = strip_prefix (codes "Bearer ") header

module _ (outside : Outside) (state : McpState) where
  unfoldable pub handle_http_rpc : Option Subject → HttpRequest → Option Call × HttpReply
  unfolding handle_request failure
  handle_http_rpc subject request = elim request.body [
    | none ↦ (none, HttpReply.answered (failure Value.null RpcFailure.parse_error))
    | some body ↦
        (let (call, response) = handle_request outside body state subject in
          (call, reply_of response))
  ]

  module _ (services : Services) where
    -- Behind the verification of the token.
    unfoldable pub run_verified : HttpRequest → Result AuthError Subject → Option Call × HttpReply
    unfolding handle_http_rpc
    run_verified request (err e) = (none, HttpReply.unauthorized e)
    run_verified request (ok subject) = handle_http_rpc (some subject) request

    unfoldable pub require_jwt_auth :
        ResolvedJwtConfig → Moment → HttpRequest → JwksCache → (Option Call × HttpReply) × JwksCache
    unfolding bearer_token verify_token run_verified
    require_jwt_auth config moment request cache = elim (bearer_token request.authorization) [
      | none ↦ ((none, HttpReply.unauthorized AuthError.missing), cache)
      | some token ↦
          (let (verified, next) = verify_token services config moment token cache in
            (run_verified request verified, next))
    ]

    -- The route /mcp, with the layer of the JWT where one is configured.
    unfoldable pub route_mcp :
        Option ResolvedJwtConfig
        → Moment
        → HttpRequest
        → JwksCache
        → (Option Call × HttpReply) × JwksCache
    unfolding require_jwt_auth handle_http_rpc
    route_mcp none moment request cache = (handle_http_rpc none request, cache)
    route_mcp (some config) moment request cache = require_jwt_auth config moment request cache

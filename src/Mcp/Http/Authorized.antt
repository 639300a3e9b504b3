-- ===== src/Mcp/Http/Authorized.antt =====
-- A call over HTTP is made for a verified subject that the policy allows: src/mcp/auth.rs and mod.rs.
use earl.Prelude.{◌≡◌, refl, inl, inr, Option, some, Option-cases, Result, ok, err}
use earl.Text.{Text}
use earl.Mcp.{McpState, Subject, Outside}
use earl.Mcp.Server.{Call}
use earl.Mcp.Gate.{IsGated, handle_request-IsGated}
use earl.Mcp.Auth.{Services, ResolvedJwtConfig, Moment, JwksCache, AuthError}
use earl.Mcp.Auth.Verification.{verify_token}
use earl.Mcp.Auth.Verified.{IsVerified, verify_token-IsVerified}
use earl.Mcp.Http.{
  HttpRequest, bearer_token, handle_http_rpc, run_verified, require_jwt_auth, route_mcp,
}

module _ (outside : Outside) (state : McpState) where
  handle_http_rpc-IsGated :
      (subject : Option Subject) (request : HttpRequest) (call : Call)
      → (handle_http_rpc outside state subject request).0 ≡ some call
      → IsGated state subject call
  unfolding handle_http_rpc
  handle_http_rpc-IsGated subject request call = elim (Option-cases request.body) [
    | inl e ↦ rw (e, handle_http_rpc) (λ h. cc)
    | inr (body, e) ↦
        rw (e, handle_http_rpc) (handle_request-IsGated outside state subject body call)
  ]

  module _ (services : Services) (config : ResolvedJwtConfig) where
    -- A subject of a verified bearer token, for whom the call passed the gates.
    pub record IsAuthorized (request : HttpRequest) (next : JwksCache) (call : Call) : Type 0 where
      pub token : Text
      pub bearer : bearer_token request.authorization ≡ some token
      pub subject : Subject
      pub verified : IsVerified services config token next.keys subject
      pub gated : IsGated state (some subject) call

    authorized :
        (moment : Moment) (token : Text) (request : HttpRequest) (cache : JwksCache) (call : Call)
        → bearer_token request.authorization ≡ some token
        → (r : Result AuthError Subject × JwksCache)
        → verify_token services config moment token cache ≡ r
        → (run_verified outside state services request r.0).0 ≡ some call
        → IsAuthorized request r.1 call
    unfolding run_verified
    authorized moment token request cache call bearer (err e, next) v h = cc
    authorized moment token request cache call bearer (ok subject, next) v h = record {
      token = token;
      bearer = bearer;
      subject = subject;
      verified = verify_token-IsVerified services config moment token cache next subject v;
      gated = handle_http_rpc-IsGated (some subject) request call h;
    }

    -- With JWT configured, a request over HTTP makes a call only if it bears a token that is verified
    -- for a subject, and the rules, whose subject patterns are matched against the claim `sub` of that
    -- token as it is, allow that subject the call.
    pub route_mcp-IsAuthorized :
        (moment : Moment) (request : HttpRequest) (cache : JwksCache) (call : Call)
        → (route_mcp outside state services (some config) moment request cache).0.0 ≡ some call
        → IsAuthorized request
            (route_mcp outside state services (some config) moment request cache).1
            call
    unfolding route_mcp require_jwt_auth
    route_mcp-IsAuthorized moment request cache call =
        elim (Option-cases (bearer_token request.authorization)) [
          | inl e ↦ rw (e, require_jwt_auth) (λ h. cc)
          | inr (token, e) ↦
              rw (e, require_jwt_auth)
                (authorized moment token request cache call e
                  (verify_token services config moment token cache) refl)
        ]

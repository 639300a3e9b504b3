-- ===== src/Mcp/Http/Tests.antt =====
-- A request with a token for src/mcp/auth.rs, and instances of the theorems.
use earl.Prelude.{
  true, false, ◌≡◌, refl, ◌⊎◌, none, some, List, [], ◌∷◌, ◌++◌, if◌then◌else◌, Result, ok, err,
}
use earl.Text.{Text, codes, text_eq}
use earl.Json.{Value, json_object}
use earl.Ssrf.{v4}
use earl.Policy.{PolicyEffect}
use earl.Mcp.{McpMode, McpState}
use earl.Mcp.Tests.{catalog, outside, request, drop}
use earl.Mcp.Auth.{
  Services, Algorithm, ResolvedJwtConfig, Moment, JwksCache, JwkKey, AuthError, FetchError, Header,
  get_or_refresh_keys, secs,
}
use earl.Mcp.Auth.Verification.{verify_token}
use earl.Mcp.Auth.Config.{JwtConfig, resolve_config, new_cache}
use earl.Mcp.Auth.Keys.{AreServable, get_or_refresh_keys-AreServable}
use earl.Mcp.Auth.Verified.{IsVerified, verify_token-IsVerified}
use earl.Mcp.Http.{HttpRequest, route_mcp}
use earl.Mcp.Http.Authorized.{IsAuthorized, route_mcp-IsAuthorized}

abbrev key : JwkKey
key =
    json_object
      ((codes "kid", Value.string (codes "k1")) ∷ (codes "kty", Value.string (codes "RSA")) ∷ [])

abbrev header : Header
header = record { kid = some (codes "k1"); alg = Algorithm.rs256 }

-- The token names its subject; the token `old` has expired.
abbrev services : Services
services = record {
  resolver = some (λ host. some (v4 (record { a = 8; b = 8; c = 8; d = 8 }) ∷ []));
  url_host = λ url. some (some url);
  fetch = λ url. some (record { is_success = true; body = [] });
  parse_jwks = λ body. some (key ∷ []);
  parse_discovery = λ body. none;
  to_uppercase = λ s. s;
  decode_header = λ token. some header;
  is_jwk = λ k. true;
  makes_key = λ k. true;
  decode = λ token k validation.
      (if text_eq token (codes "old")
        then none
        else some (some (record { sub = token; jti = none })));
}

abbrev jwt_config : JwtConfig
jwt_config = record {
  oidc_discovery_url = none;
  issuer = some (codes "iss");
  jwks_uri = some (codes "keys.example.com");
  audience = codes "earl";
  algorithms = codes "RS256" ∷ [];
  clock_skew_seconds = 900;
  jwks_cache_max_age_seconds = 600;
}

abbrev config : ResolvedJwtConfig
config = record {
  issuer = codes "iss";
  jwks_uri = codes "keys.example.com";
  audience = codes "earl";
  algorithms = Algorithm.rs256 ∷ [];
  clock_skew_seconds = 300;
  jwks_cache_max_age_seconds = 600;
}

config_test : resolve_config services jwt_config ≡ ok config
unfolding resolve_config
config_test = refl

abbrev moment : Moment
moment = record { process_id = 1; now = secs 10000; stored = secs 10001; noted = secs 10002 }

abbrev cache : JwksCache
cache = new_cache config (secs 10000)

abbrev refreshed : JwksCache
refreshed = record {
  keys = key ∷ [];
  fetched_at = secs 10001;
  last_kid_miss_refresh = some (secs 10002);
}

verify_tests :
    (verify_token services config moment (codes "ann") cache
      ≡ (ok (record { sub = codes "ann"; jti = none }), refreshed))
    × (verify_token services config moment (codes "old") cache ≡ (err AuthError.expired, refreshed))
unfolding verify_token new_cache
verify_tests = (refl, refl)

verify_token-IsVerified_example :
    IsVerified services config (codes "ann") (key ∷ []) (record { sub = codes "ann"; jti = none })
verify_token-IsVerified_example =
    verify_token-IsVerified services config moment (codes "ann") cache refreshed
      (record { sub = codes "ann"; jti = none }) verify_tests.0

-- Ann may call every tool.
abbrev state : McpState
state = record {
  catalog = catalog;
  mode = McpMode.full;
  auto_yes = false;
  policies =
      record {
        subjects = codes "ann" ∷ [];
        tools = codes "*" ∷ [];
        modes = none;
        effect = PolicyEffect.allow;
      }
      ∷ [];
  active_env = none;
}

abbrev http_request : Text → HttpRequest
http_request name = record {
  authorization = some (codes "Bearer " ++ name);
  body = some (request (codes "sh.drop"));
}

route_tests :
    ((route_mcp outside state services (some config) moment (http_request (codes "ann")) cache).0.0
      ≡ some (drop, []))
    × ((route_mcp outside state services
          (some config)
          moment
          (http_request (codes "bob"))
          cache).0.0
        ≡ none)
unfolding route_mcp new_cache
route_tests = (refl, refl)

route_mcp-IsAuthorized_example :
    IsAuthorized outside state services config
      (http_request (codes "ann"))
      (route_mcp outside state services (some config) moment (http_request (codes "ann")) cache).1
      (drop, [])
route_mcp-IsAuthorized_example =
    route_mcp-IsAuthorized outside state services config moment (http_request (codes "ann")) cache
      (drop, []) route_tests.0

-- Keys of 700 seconds of age are served when the fetch fails.
abbrev stale : JwksCache
stale = record { keys = key ∷ []; fetched_at = secs 9300; last_kid_miss_refresh = none }

stale_test :
    get_or_refresh_keys config moment (some (codes "k1")) (err FetchError.unreachable) stale
    ≡ (ok (key ∷ []), stale)
unfolding get_or_refresh_keys
stale_test = refl

get_or_refresh_keys-AreServable_example :
    (stale.keys ≡ key ∷ [])
    × ((◌≡◌ {A = Result FetchError (List JwkKey)} (err FetchError.unreachable) (ok (key ∷ [])))
        ⊎ ((stale ≡ stale) × AreServable config moment stale))
get_or_refresh_keys-AreServable_example =
    get_or_refresh_keys-AreServable config moment (some (codes "k1")) stale
      (err FetchError.unreachable) (key ∷ []) stale stale_test

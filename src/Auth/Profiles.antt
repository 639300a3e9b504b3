-- ===== src/Auth/Profiles.antt =====
-- The profiles: resolve_profile and the checks of URLs of src/auth/profiles.rs.
use earl.Prelude.{
  Bool, false, not, ◌&&◌, ◌||◌, Option, none, some, is_some, if◌then◌else◌, Result, ok, ◌>>=◌,
  bail_if, or_fail, map_err,
}
use earl.Text.{Text, codes, text_eq, eq_ignore_ascii_case}
use earl.Text.Keys.{lookup}
use earl.Ssrf.Dns.{resolve_and_validate_host}
use earl.Allowlist.{Url}
use earl.Secrets.{require_secret}
use earl.Auth.{
  Provider, OAuthFlow, OAuthProfile, ResolvedOAuthProfile, OidcMetadata, OAuthError, same_flow,
  or_else,
}

module _ (provider : Provider) where
  unfoldable pub is_loopback_host : Text → Bool
  unfolding eq_ignore_ascii_case
  is_loopback_host host =
      eq_ignore_ascii_case host (codes "localhost") || provider.is_loopback_address host

  unfoldable pub validate_endpoint_url : Url → Result OAuthError (Unit {0})
  unfolding text_eq resolve_and_validate_host is_loopback_host
  validate_endpoint_url parsed = do
    host ← or_fail parsed.host_str OAuthError.missing_host
    if text_eq parsed.scheme (codes "https")
        then map_err OAuthError.refused_host
            (resolve_and_validate_host provider.resolver host false)
          >>= (λ ips. ok tt)
        else bail_if (not (text_eq parsed.scheme (codes "http") && is_loopback_host host))
            OAuthError.unsupported_scheme

  unfoldable pub validate_oauth_endpoint : Text → Result OAuthError (Unit {0})
  unfolding validate_endpoint_url
  validate_oauth_endpoint raw = do
    parsed ← or_fail (provider.parse_url raw) OAuthError.invalid_url
    validate_endpoint_url parsed

  unfoldable pub validate_optional : Option Text → Result OAuthError (Unit {0})
  unfolding validate_oauth_endpoint
  validate_optional none = ok tt
  validate_optional (some raw) = validate_oauth_endpoint raw

  -- The request itself is the parameter `discover`.
  unfoldable pub discover_oidc : Text → Result OAuthError OidcMetadata
  unfolding validate_oauth_endpoint
  discover_oidc issuer = do
    safe ← validate_oauth_endpoint issuer
    or_fail (provider.discover issuer) OAuthError.discovery_failed

  -- The three URLs of a profile, completed by discovery.
  unfoldable pub endpoints_of : OAuthProfile → Result OAuthError OidcMetadata
  unfolding discover_oidc
  endpoints_of profile = elim profile.issuer [
    | none ↦ ok (record {
      authorization_endpoint = profile.authorization_url;
      token_endpoint = profile.token_url;
      device_authorization_endpoint = profile.device_authorization_url;
    })
    | some issuer ↦ (do
      metadata ← discover_oidc issuer
      ok (record {
        authorization_endpoint = or_else profile.authorization_url metadata.authorization_endpoint;
        token_endpoint = or_else profile.token_url metadata.token_endpoint;
        device_authorization_endpoint =
            or_else profile.device_authorization_url metadata.device_authorization_endpoint;
      }))
  ]

  unfoldable pub client_secret_of : Option Text → Result OAuthError (Option Text)
  unfolding require_secret
  client_secret_of none = ok none
  client_secret_of (some secret_key) = do
    secret ←
        map_err OAuthError.no_client_secret
          (require_secret provider.get_secret_of provider.secret_resolvers secret_key).1
    ok (some secret)

  unfoldable pub check_endpoints : OAuthFlow → Text → OidcMetadata → Result OAuthError (Unit {0})
  unfolding validate_oauth_endpoint validate_optional
  check_endpoints flow token_url endpoints = do
    authorized ←
        bail_if
          (same_flow flow OAuthFlow.auth_code_pkce
            && not (is_some endpoints.authorization_endpoint))
          OAuthError.no_authorization_url
    device ←
        bail_if
          (same_flow flow OAuthFlow.device_code
            && not (is_some endpoints.device_authorization_endpoint))
          OAuthError.no_device_authorization_url
    token_safe ← validate_oauth_endpoint token_url
    authorization_safe ← validate_optional endpoints.authorization_endpoint
    validate_optional endpoints.device_authorization_endpoint

  unfoldable pub resolve_profile : Text → Result OAuthError ResolvedOAuthProfile
  unfolding lookup endpoints_of client_secret_of check_endpoints
  resolve_profile name = do
    profile ← or_fail (lookup name provider.profiles) OAuthError.unknown_profile
    endpoints ← endpoints_of profile
    token_url ← or_fail endpoints.token_endpoint OAuthError.no_token_url
    client_secret ← client_secret_of profile.client_secret_key
    safe ← check_endpoints profile.flow token_url endpoints
    ok (record {
      name = name;
      flow = profile.flow;
      client_id = profile.client_id;
      client_secret = client_secret;
      authorization_url = endpoints.authorization_endpoint;
      token_url = token_url;
      device_authorization_url = endpoints.device_authorization_endpoint;
      redirect_url = profile.redirect_url;
      scopes = profile.scopes;
      use_auth_request_body = profile.use_auth_request_body;
    })

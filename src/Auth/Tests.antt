-- ===== src/Auth/Tests.antt =====
-- A profile with its token for src/auth, and instances of the theorems.
use earl.Prelude.{true, false, ◌≡◌, refl, none, some, [], ◌∷◌, ok, err}
use earl.Text.{codes}
use earl.Text.Keys.{lookup}
use earl.Ssrf.{v4}
use earl.Auth.{
  Provider, OAuthFlow, OAuthProfile, OAuthError, ResolvedOAuthProfile, StoredOAuthToken,
  TokenResponse, TokenStore, key_for_profile,
}
use earl.Auth.Manager.{access_token_for_profile, refresh, logout}
use earl.Auth.Profiles.{resolve_profile}
use earl.Auth.Endpoints.{HasSafeUrls, resolve_profile-HasSafeUrls}
use earl.Auth.Tokens.{IsCurrent, access_token_for_profile-IsCurrent}

abbrev profile : OAuthProfile
profile = record {
  flow = OAuthFlow.device_code;
  client_id = codes "id";
  client_secret_key = none;
  issuer = some (codes "iss");
  authorization_url = none;
  token_url = none;
  device_authorization_url = some (codes "device");
  redirect_url = none;
  scopes = codes "read" ∷ [];
  use_auth_request_body = false;
}

-- The answer has no new refresh token.
abbrev response : TokenResponse
response = record {
  access_token = codes "new";
  refresh_token = none;
  token_type = codes "Bearer";
  expires_at = some 5000;
  scopes = none;
}

abbrev provider : Provider
provider = record {
  profiles = (codes "p", profile) ∷ [];
  get_secret_of = λ key. none;
  secret_resolvers = [];
  resolver = some (λ host. some (v4 (record { a = 8; b = 8; c = 8; d = 8 }) ∷ []));
  parse_url = λ raw. some (record {
    scheme = codes "https";
    host_str = some raw;
    port_or_known_default = some 443;
    path = codes "/";
  });
  is_loopback_address = λ host. false;
  discover = λ issuer. some (record {
    authorization_endpoint = none;
    token_endpoint = some (codes "token");
    device_authorization_endpoint = none;
  });
  exchange_refresh_token = λ p refresh_token. some response;
  exchange_client_credentials = λ p. none;
  keychain_reads = λ key. true;
  keychain_writes = λ key. true;
}

abbrev resolved : ResolvedOAuthProfile
resolved = record {
  name = codes "p";
  flow = OAuthFlow.device_code;
  client_id = codes "id";
  client_secret = none;
  authorization_url = none;
  token_url = codes "token";
  device_authorization_url = some (codes "device");
  redirect_url = none;
  scopes = codes "read" ∷ [];
  use_auth_request_body = false;
}

abbrev stored : StoredOAuthToken
stored = record {
  access_token = codes "old";
  refresh_token = some (codes "r");
  token_type = none;
  expires_at = some 1000;
  scopes = [];
}

abbrev renewed : StoredOAuthToken
renewed = record {
  access_token = codes "new";
  refresh_token = none;
  token_type = some (codes "Bearer");
  expires_at = some 5000;
  scopes = codes "read" ∷ [];
}

abbrev store : TokenStore
store = (codes "oauth2.p.token", stored) ∷ []

abbrev renewed_store : TokenStore
renewed_store = (codes "oauth2.p.token", renewed) ∷ []

-- The renewed token has lost the refresh token, so once it expires it cannot be renewed; and a refresh
-- in time changes nothing.
token_tests :
    (resolve_profile provider (codes "p") ≡ ok resolved)
    × (access_token_for_profile provider 970 (codes "p") store ≡ ok (codes "new", renewed_store))
    × (access_token_for_profile provider 969 (codes "p") store ≡ ok (codes "old", store))
    × (access_token_for_profile provider 6000 (codes "p") renewed_store
        ≡ err OAuthError.expired_token)
    × (refresh provider 0 (codes "p") store ≡ ok store)
    × (logout (codes "p") store ≡ (true, []))
unfolding resolve_profile access_token_for_profile refresh logout
token_tests = (refl, refl, refl, refl, refl, refl)

resolve_profile-HasSafeUrls_example : HasSafeUrls provider resolved
resolve_profile-HasSafeUrls_example =
    resolve_profile-HasSafeUrls provider (codes "p") resolved token_tests.0

access_token_for_profile-IsCurrent_example :
    (p : ResolvedOAuthProfile) × (token : StoredOAuthToken) × (resolve_profile provider (codes "p")
      ≡ ok p)
    × (lookup (key_for_profile (codes "p")) renewed_store ≡ some token)
    × (token.access_token ≡ codes "new")
    × IsCurrent provider 970 p (lookup (key_for_profile (codes "p")) store) token
access_token_for_profile-IsCurrent_example =
    access_token_for_profile-IsCurrent provider 970 (codes "p") store renewed_store (codes "new")
      token_tests.1

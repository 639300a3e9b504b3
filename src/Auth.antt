-- ===== src/Auth.antt =====
-- OAuth profiles and tokens: src/auth/profiles.rs, oauth2.rs and token_store.rs. The token endpoint, the
-- discovery request and the parsers of URLs and addresses are parameters; so is whether the keychain
-- can be read and written. An instant is a number of seconds.
pub mod Profiles
pub mod Manager
pub mod Endpoints
pub mod Tokens
mod Tests
use earl.Prelude.{
  ℕ, ◌+◌, Bool, true, false, not, ◌&&◌, ◌||◌, Option, none, some, List, [], ◌∷◌, ◌++◌, ltb, leb,
  is_some, some_and, if◌then◌else◌, Result, ok, err, ◌>>=◌, ◌>>◌, bail_if, or_fail, map_err,
}
use earl.Text.{Text, codes, text_eq, eq_ignore_ascii_case}
use earl.Text.Keys.{Map, lookup, insert}
use earl.Ssrf.{IpAddr}
use earl.Ssrf.Dns.{DnsError, resolve_and_validate_host}
use earl.Allowlist.{Url}
use earl.Secrets.{SecretResolver, SecretError, require_secret, remove_key}

pub data OAuthFlow : Type 0 where
  auth_code_pkce device_code client_credentials : OAuthFlow

pub record OAuthProfile : Type 0 where
  pub flow : OAuthFlow
  pub client_id : Text
  pub client_secret_key : Option Text
  pub issuer : Option Text
  pub authorization_url : Option Text
  pub token_url : Option Text
  pub device_authorization_url : Option Text
  pub redirect_url : Option Text
  pub scopes : List Text
  pub use_auth_request_body : Bool

pub record ResolvedOAuthProfile : Type 0 where
  pub name : Text
  pub flow : OAuthFlow
  pub client_id : Text
  pub client_secret : Option Text
  pub authorization_url : Option Text
  pub token_url : Text
  pub device_authorization_url : Option Text
  pub redirect_url : Option Text
  pub scopes : List Text
  pub use_auth_request_body : Bool

pub record OidcMetadata : Type 0 where
  pub authorization_endpoint : Option Text
  pub token_endpoint : Option Text
  pub device_authorization_endpoint : Option Text

pub data OAuthError : Type 0 where
  unknown_profile invalid_url missing_host unsupported_scheme discovery_failed : OAuthError
  no_token_url no_authorization_url no_device_authorization_url : OAuthError
  refused_host : DnsError → OAuthError
  no_client_secret : SecretError → OAuthError
  exchange_failed not_logged_in expired_token keychain_failed : OAuthError

pub record StoredOAuthToken : Type 0 where
  pub access_token : Text
  pub refresh_token : Option Text
  pub token_type : Option Text
  pub expires_at : Option ℕ
  pub scopes : List Text

-- What the token endpoint answers; `expires_at` is the instant behind its `expires_in`.
pub record TokenResponse : Type 0 where
  pub access_token : Text
  pub refresh_token : Option Text
  pub token_type : Text
  pub expires_at : Option ℕ
  pub scopes : Option (List Text)

pub record Provider : Type 0 where
  pub profiles : Map OAuthProfile
  pub get_secret_of : Text → Option (Option Text)
  pub secret_resolvers : List SecretResolver
  pub resolver : Option (Text → Option (List IpAddr))
  pub parse_url : Text → Option Url
  pub is_loopback_address : Text → Bool
  pub discover : Text → Option OidcMetadata
  pub exchange_refresh_token : ResolvedOAuthProfile → Text → Option TokenResponse
  pub exchange_client_credentials : ResolvedOAuthProfile → Option TokenResponse
  pub keychain_reads : Text → Bool
  pub keychain_writes : Text → Bool

abbrev pub same_flow : OAuthFlow → OAuthFlow → Bool
same_flow OAuthFlow.auth_code_pkce OAuthFlow.auth_code_pkce = true
same_flow OAuthFlow.device_code OAuthFlow.device_code = true
same_flow OAuthFlow.client_credentials OAuthFlow.client_credentials = true
same_flow _ _ = false

abbrev pub or_else : Option Text → Option Text → Option Text
or_else none later = later
or_else (some url) later = some url

-- Half a minute before the token expires it counts as expired.
unfoldable pub is_expired : ℕ → StoredOAuthToken → Bool
is_expired now token = some_and (λ expires. leb expires (now + 30)) token.expires_at

unfoldable pub token_response_to_stored : TokenResponse → List Text → StoredOAuthToken
token_response_to_stored token fallback_scopes = record {
  access_token = token.access_token;
  refresh_token = token.refresh_token;
  token_type = some token.token_type;
  expires_at = token.expires_at;
  scopes = elim token.scopes [ none ↦ fallback_scopes | some scopes ↦ scopes ];
}

abbrev pub key_for_profile : Text → Text
key_for_profile profile = codes "oauth2." ++ (profile ++ codes ".token")

abbrev pub TokenStore : Type 0
TokenStore = Map StoredOAuthToken

-- ===== src/Auth/Manager.antt =====
-- The tokens of a profile: OAuthTokenStore of src/auth/token_store.rs and the manager of src/auth/oauth2.rs.
use earl.Prelude.{
  ℕ, Bool, not, Option, none, some, is_some, if◌then◌else◌, Result, ok, err, ◌>>=◌, ◌>>◌, bail_if,
  or_fail,
}
use earl.Text.{Text}
use earl.Text.Keys.{lookup, insert}
use earl.Secrets.{remove_key}
use earl.Auth.{
  Provider, OAuthFlow, ResolvedOAuthProfile, OAuthError, StoredOAuthToken, TokenStore, same_flow,
  is_expired, token_response_to_stored, key_for_profile,
}
use earl.Auth.Profiles.{resolve_profile}

module _ (provider : Provider) where
  unfoldable pub load : Text → TokenStore → Result OAuthError (Option StoredOAuthToken)
  unfolding lookup
  load profile store =
      bail_if (not (provider.keychain_reads (key_for_profile profile))) OAuthError.keychain_failed
      >> ok (lookup (key_for_profile profile) store)

  unfoldable pub save : Text → StoredOAuthToken → TokenStore → Result OAuthError TokenStore
  unfolding insert
  save profile token store =
      bail_if (not (provider.keychain_writes (key_for_profile profile))) OAuthError.keychain_failed
      >> ok (insert (key_for_profile profile) token store)

  unfoldable pub login_client_credentials :
      ResolvedOAuthProfile → Result OAuthError StoredOAuthToken
  unfolding token_response_to_stored
  login_client_credentials profile = do
    token ← or_fail (provider.exchange_client_credentials profile) OAuthError.exchange_failed
    ok (token_response_to_stored token profile.scopes)

  unfoldable pub refresh_with :
      ResolvedOAuthProfile → Option Text → Result OAuthError StoredOAuthToken
  unfolding token_response_to_stored login_client_credentials
  refresh_with profile (some refresh_token) = do
    token ←
        or_fail (provider.exchange_refresh_token profile refresh_token) OAuthError.exchange_failed
    ok (token_response_to_stored token profile.scopes)
  refresh_with profile none =
      if same_flow profile.flow OAuthFlow.client_credentials
      then login_client_credentials profile
      else err OAuthError.expired_token

  unfoldable pub refresh_token_if_possible :
      ℕ → ResolvedOAuthProfile → StoredOAuthToken → Result OAuthError StoredOAuthToken
  unfolding is_expired refresh_with
  refresh_token_if_possible now profile current =
      if not (is_expired now current)
      then ok current
      else refresh_with profile current.refresh_token

  unfoldable pub current_token :
      ℕ → ResolvedOAuthProfile → Option StoredOAuthToken → Result OAuthError StoredOAuthToken
  unfolding is_expired refresh_token_if_possible login_client_credentials
  current_token now profile (some existing) =
      if is_expired now existing
      then refresh_token_if_possible now profile existing
      else ok existing
  current_token now profile none =
      if same_flow profile.flow OAuthFlow.client_credentials
      then login_client_credentials profile
      else err OAuthError.not_logged_in

  -- The access token, and the store with the token that it belongs to.
  unfoldable pub access_token_for_profile :
      ℕ → Text → TokenStore → Result OAuthError (Text × TokenStore)
  unfolding resolve_profile load current_token save
  access_token_for_profile now profile_name store = do
    profile ← resolve_profile provider profile_name
    existing ← load profile_name store
    token ← current_token now profile existing
    saved ← save profile_name token store
    ok (token.access_token, saved)

  unfoldable pub refresh : ℕ → Text → TokenStore → Result OAuthError TokenStore
  unfolding resolve_profile load refresh_token_if_possible save
  refresh now profile_name store = do
    profile ← resolve_profile provider profile_name
    existing ← load profile_name store
    current ← or_fail existing OAuthError.not_logged_in
    refreshed ← refresh_token_if_possible now profile current
    save profile_name refreshed store

unfoldable pub logout : Text → TokenStore → Bool × TokenStore
unfolding lookup remove_key
logout profile_name store = (
  is_some (lookup (key_for_profile profile_name) store),
  remove_key (key_for_profile profile_name) store,
)

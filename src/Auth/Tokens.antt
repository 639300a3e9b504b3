-- ===== src/Auth/Tokens.antt =====
-- Where an access token comes from: access_token_for_profile of src/auth/oauth2.rs.
use earl.Prelude.{
  ℕ, ◌+◌, ◌<◌, ◌≤◌, ◌⊎◌, List, Option-cases, arith, true, false, not, ◌≡◌, refl, ap, ◌∙◌, sym, inl,
  inr, Bool-cases, Option, none, some, Result, ok, err, bail_if, or_fail, or_fail-eq_ok, bind-eq_ok,
  ok-injective, subst, if◌then◌else◌,
}
use earl.Text.{Text}
use earl.Text.Laws.{text_eq_refl}
use earl.Text.Keys.{lookup, insert, lookup-insert}
use earl.Auth.{
  Provider, OAuthFlow, OAuthError, ResolvedOAuthProfile, StoredOAuthToken, TokenResponse,
  TokenStore, same_flow, is_expired, token_response_to_stored, key_for_profile,
}
use earl.Auth.Manager.{
  load, save, login_client_credentials, refresh_with, refresh_token_if_possible, current_token,
  access_token_for_profile,
}
use earl.Auth.Profiles.{resolve_profile}

lookup-insert_self :
    (key : Text) (token : StoredOAuthToken) (store : TokenStore)
    → lookup key (insert key token store) ≡ some token
lookup-insert_self key token store =
    lookup-insert key key token store
    ∙ ap (λ b. if b then some token else lookup key store) (text_eq_refl key)

module _ (provider : Provider) (now : ℕ) (profile : ResolvedOAuthProfile) where
  -- The token expires later than half a minute from now, or never.
  abbrev pub IsFresh : StoredOAuthToken → Type 0
  IsFresh token =
      (token.expires_at ≡ none) ⊎ ((e : ℕ) × (token.expires_at ≡ some e) × (now + 30 < e))

  abbrev pub IsStale : StoredOAuthToken → Type 0
  IsStale token = (e : ℕ) × (token.expires_at ≡ some e) × (e ≤ now + 30)

  -- The token is that of the response; its scopes are those of the profile if the response names none.
  pub record IsFrom (response : TokenResponse) (token : StoredOAuthToken) : Type 0 where
    pub access_token : token.access_token ≡ response.access_token
    pub refresh_token : token.refresh_token ≡ response.refresh_token
    pub token_type : token.token_type ≡ some response.token_type
    pub expires_at : token.expires_at ≡ response.expires_at
    pub own_scopes : response.scopes ≡ none → token.scopes ≡ profile.scopes
    pub named_scopes : (scopes : List Text) → response.scopes ≡ some scopes → token.scopes ≡ scopes

  -- No token is stored, or a stale one that has no refresh token.
  abbrev pub NeedsGrant : Option StoredOAuthToken → Type 0
  NeedsGrant existing =
      (existing ≡ none)
      ⊎ ((old : StoredOAuthToken) × (existing ≡ some old)
          × IsStale old
          × (old.refresh_token ≡ none))

  -- The stored token if it is fresh; the one for its refresh token if it is stale and has one; and
  -- otherwise the one for the credentials of the client.
  pub data IsCurrent (existing : Option StoredOAuthToken) (token : StoredOAuthToken) : Type 0 where
    kept : existing ≡ some token → IsFresh token → IsCurrent existing token
    refreshed :
        (old : StoredOAuthToken) (refresh_token : Text) (response : TokenResponse)
        → existing ≡ some old
        → IsStale old
        → old.refresh_token ≡ some refresh_token
        → provider.exchange_refresh_token profile refresh_token ≡ some response
        → IsFrom response token
        → IsCurrent existing token
    granted :
        (response : TokenResponse)
        → NeedsGrant existing
        → profile.flow ≡ OAuthFlow.client_credentials
        → provider.exchange_client_credentials profile ≡ some response
        → IsFrom response token
        → IsCurrent existing token

  is_expired-false : (token : StoredOAuthToken) → is_expired now token ≡ false → IsFresh token
  unfolding is_expired
  is_expired-false token = elim (Option-cases token.expires_at) [
    | inl never ↦ λ h. inl never
    | inr (e, at) ↦ rw at (λ h. inr (e, refl, ground arith))
  ]

  is_expired-true : (token : StoredOAuthToken) → is_expired now token ≡ true → IsStale token
  unfolding is_expired
  is_expired-true token = elim (Option-cases token.expires_at) [
    | inl never ↦ rw never (λ h. cc)
    | inr (e, at) ↦ rw at (λ h. (e, refl, ground arith))
  ]

  same_flow-eq :
      (flow : OAuthFlow)
      → same_flow flow OAuthFlow.client_credentials ≡ true
      → flow ≡ OAuthFlow.client_credentials
  same_flow-eq OAuthFlow.auth_code_pkce h = cc
  same_flow-eq OAuthFlow.device_code h = cc
  same_flow-eq OAuthFlow.client_credentials h = refl

  to_stored-IsFrom :
      (response : TokenResponse)
      → IsFrom response (token_response_to_stored response profile.scopes)
  unfolding token_response_to_stored
  to_stored-IsFrom response = record {
    access_token = refl;
    refresh_token = refl;
    token_type = refl;
    expires_at = refl;
    own_scopes = λ h. rw h refl;
    named_scopes = λ scopes h. rw h refl;
  }

  made-IsFrom :
      (response : TokenResponse) (token : StoredOAuthToken)
      → ◌≡◌ {A = Result OAuthError StoredOAuthToken}
          (ok (token_response_to_stored response profile.scopes))
          (ok token)
      → IsFrom response token
  made-IsFrom response token h =
      subst (IsFrom response) (ok-injective h) (to_stored-IsFrom response)

  no_token :
      {e : OAuthError} {token : StoredOAuthToken}
      → ¬ (◌≡◌ {A = Result OAuthError StoredOAuthToken} (err e) (ok token))
  no_token h = cc

  login-IsCurrent :
      (existing : Option StoredOAuthToken) (token : StoredOAuthToken)
      → NeedsGrant existing
      → same_flow profile.flow OAuthFlow.client_credentials ≡ true
      → login_client_credentials provider profile ≡ ok token
      → IsCurrent existing token
  unfolding login_client_credentials
  login-IsCurrent existing token needed flow h =
      let (response, e, h1) =
        bind-eq_ok (or_fail (provider.exchange_client_credentials profile) _) _ h in
      IsCurrent.granted response needed (same_flow-eq profile.flow flow) (or_fail-eq_ok _ _ e)
        (made-IsFrom response token h1)

  refresh_with-IsCurrent :
      (old token : StoredOAuthToken) (o : Option Text)
      → old.refresh_token ≡ o
      → is_expired now old ≡ true
      → refresh_with provider profile o ≡ ok token
      → IsCurrent (some old) token
  unfolding refresh_with
  refresh_with-IsCurrent old token (some rt) e x = λ h.
      (let (response, f, h1) =
          bind-eq_ok (or_fail (provider.exchange_refresh_token profile rt) _) _ h in
        IsCurrent.refreshed old rt response refl (is_expired-true old x) e (or_fail-eq_ok _ _ f)
          (made-IsFrom response token h1))
  refresh_with-IsCurrent old token none e x =
      elim (Bool-cases (same_flow profile.flow OAuthFlow.client_credentials)) [
        | inl flow ↦
            rw flow
              (login-IsCurrent (some old) token (inr (old, refl, is_expired-true old x, e)) flow)
        | inr other ↦ rw other (λ h. absurd (no_token h))
      ]

  current_token-IsCurrent :
      (existing : Option StoredOAuthToken) (token : StoredOAuthToken)
      → current_token provider now profile existing ≡ ok token
      → IsCurrent existing token
  unfolding current_token refresh_token_if_possible
  current_token-IsCurrent none token =
      elim (Bool-cases (same_flow profile.flow OAuthFlow.client_credentials)) [
        | inl flow ↦ rw flow (login-IsCurrent none token (inl refl) flow)
        | inr other ↦ rw other (λ h. absurd (no_token h))
      ]
  current_token-IsCurrent (some old) token = elim (Bool-cases (is_expired now old)) [
    | inl x ↦ rw x (refresh_with-IsCurrent old token old.refresh_token refl x)
    | inr fresh ↦ rw fresh (λ h.
        IsCurrent.kept (ap some (ok-injective h))
          (subst IsFresh (ok-injective h) (is_expired-false old fresh)))
  ]

-- A token that is given is in the store afterwards and is the current one for the resolved profile: the
-- stored one if it expires later than 30 seconds from now or never; if it expires before, the one that
-- the provider gives for its refresh token; and if none is stored or it has no refresh token, the one
-- for the client's credentials, in that flow only.
pub access_token_for_profile-IsCurrent :
    (provider : Provider) (now : ℕ) (name : Text) (store saved : TokenStore) (access : Text)
    → access_token_for_profile provider now name store ≡ ok (access, saved)
    → (profile : ResolvedOAuthProfile) × (token : StoredOAuthToken) × (resolve_profile provider name
        ≡ ok profile)
      × (lookup (key_for_profile name) saved ≡ some token)
      × (token.access_token ≡ access)
      × IsCurrent provider now profile (lookup (key_for_profile name) store) token
unfolding access_token_for_profile load save
access_token_for_profile-IsCurrent provider now name store saved access h =
    let (profile, resolved, h1) = bind-eq_ok (resolve_profile provider name) _ h in
    let (existing, loaded, h2) = bind-eq_ok (load provider name store) _ h1 in
    let (token, current, h3) = bind-eq_ok (current_token provider now profile existing) _ h2 in
    let (next, stored, h4) = bind-eq_ok (save provider name token store) _ h3 in
    let (_, _, found) =
      bind-eq_ok (bail_if (not (provider.keychain_reads (key_for_profile name))) _) _ loaded in
    let (_, _, inserted) =
      bind-eq_ok (bail_if (not (provider.keychain_writes (key_for_profile name))) _) _ stored in
    (
      profile,
      token,
      resolved,
      ap (lookup (key_for_profile name))
            (sym (ok-injective inserted ∙ ap (λ p. p.1) (ok-injective h4)))
          ∙ lookup-insert_self (key_for_profile name) token store,
      ap (λ p. p.0) (ok-injective h4),
      subst (λ o. IsCurrent provider now profile o token) (sym (ok-injective found))
          (current_token-IsCurrent provider now profile existing token current),
    )

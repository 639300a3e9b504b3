-- ===== src/Auth/Endpoints.antt =====
-- The URLs of a resolved profile are safe to send credentials to: resolve_profile of src/auth/profiles.rs.
use earl.Prelude.{
  Bool, true, false, not, ◌&&◌, ◌≡◌, refl, ◌⊎◌, inl, inr, Bool-cases, Option, none, some, List, All,
  ok, bail_if, bail_if_iff, or_fail, or_fail-eq_ok, map_err, map_err-eq_ok, bind-eq_ok,
  ok-injective, subst, is_some,
}
use earl.Text.{Text, codes, text_eq}
use earl.Text.Laws.{text_eq_iff}
use earl.Text.Keys.{lookup}
use earl.Ssrf.{IpAddr}
use earl.Ssrf.Dns.{Passes, resolve_and_validate_host, resolve_and_validate_host-Passes}
use earl.Allowlist.{Url}
use earl.Auth.{Provider, OAuthFlow, OAuthError, ResolvedOAuthProfile, same_flow}
use earl.Auth.Profiles.{
  is_loopback_host, validate_endpoint_url, validate_oauth_endpoint, validate_optional, endpoints_of,
  client_secret_of, check_endpoints, resolve_profile,
}

both_left : (a b : Bool) → not (a && b) ≡ false → a ≡ true
both_left true b h = refl
both_left false b h = cc

both_right : (a b : Bool) → not (a && b) ≡ false → b ≡ true
both_right true true h = refl
both_right true false h = cc
both_right false b h = cc

module _ (provider : Provider) where
  -- https to a host whose addresses the guard lets pass, or http to this machine.
  pub record IsSafeUrl (raw : Text) : Type 0 where
    pub parsed : Url
    pub parses : provider.parse_url raw ≡ some parsed
    pub host : Text
    pub has_host : parsed.host_str ≡ some host
    pub safe :
        ((parsed.scheme ≡ codes "https")
          × ((ips : List IpAddr) × (resolve_and_validate_host provider.resolver host false ≡ ok ips)
              × All (Passes false) ips))
        ⊎ ((parsed.scheme ≡ codes "http") × (is_loopback_host provider host ≡ true))

  validate_oauth_endpoint-IsSafeUrl :
      (raw : Text) → validate_oauth_endpoint provider raw ≡ ok tt → IsSafeUrl raw
  unfolding validate_oauth_endpoint validate_endpoint_url
  validate_oauth_endpoint-IsSafeUrl raw h =
      let (parsed, p, h1) = bind-eq_ok (or_fail (provider.parse_url raw) _) _ h in
      let (host, q, h2) = bind-eq_ok (or_fail parsed.host_str _) _ h1 in
      elim (Bool-cases (text_eq parsed.scheme (codes "https"))) [
        | inl https ↦
            (let (ips, found, _) =
                bind-eq_ok
                  (map_err OAuthError.refused_host
                    (resolve_and_validate_host provider.resolver host false))
                  _ (rw https at h2) in
              let passed = map_err-eq_ok _ _ found in
              record {
                parsed = parsed;
                parses = or_fail-eq_ok _ _ p;
                host = host;
                has_host = or_fail-eq_ok _ _ q;
                safe = inl (
                  (text_eq_iff parsed.scheme _).0 https,
                  (
                    ips,
                    passed,
                    resolve_and_validate_host-Passes provider.resolver host false ips passed,
                  ),
                );
              })
        | inr other ↦
            (let open_http = (bail_if_iff _ _).0 (rw other at h2) in
              record {
                parsed = parsed;
                parses = or_fail-eq_ok _ _ p;
                host = host;
                has_host = or_fail-eq_ok _ _ q;
                safe = inr (
                  (text_eq_iff parsed.scheme (codes "http")).0 (both_left _ _ open_http),
                  both_right _ _ open_http,
                );
              })
      ]

  abbrev pub SafeIfGiven : Option Text → Type 0
  SafeIfGiven none = Unit
  SafeIfGiven (some raw) = IsSafeUrl raw

  validate_optional-SafeIfGiven :
      (o : Option Text) → validate_optional provider o ≡ ok tt → SafeIfGiven o
  unfolding validate_optional
  validate_optional-SafeIfGiven none h = tt
  validate_optional-SafeIfGiven (some raw) h = validate_oauth_endpoint-IsSafeUrl raw h

  -- The URLs that a flow cannot do without, and the safety of all of them.
  pub record HasSafeUrls (profile : ResolvedOAuthProfile) : Type 0 where
    pub token : IsSafeUrl profile.token_url
    pub authorization : SafeIfGiven profile.authorization_url
    pub device : SafeIfGiven profile.device_authorization_url
    pub authorizes :
        (same_flow profile.flow OAuthFlow.auth_code_pkce && not (is_some profile.authorization_url))
        ≡ false
    pub devices :
        (same_flow profile.flow OAuthFlow.device_code
          && not (is_some profile.device_authorization_url))
        ≡ false

  -- A profile is resolved only if its token URL and the other URLs that it has are https URLs of hosts
  -- whose addresses pass the guard, or http URLs of this machine, and if it has the URL that its flow
  -- begins with.
  pub resolve_profile-HasSafeUrls :
      (name : Text) (profile : ResolvedOAuthProfile)
      → resolve_profile provider name ≡ ok profile
      → HasSafeUrls profile
  unfolding resolve_profile check_endpoints
  resolve_profile-HasSafeUrls name profile h =
      let (given, _, h1) = bind-eq_ok (or_fail (lookup name provider.profiles) _) _ h in
      let (endpoints, _, h2) = bind-eq_ok (endpoints_of provider given) _ h1 in
      let (token_url, _, h3) = bind-eq_ok (or_fail endpoints.token_endpoint _) _ h2 in
      let (secret, _, h4) = bind-eq_ok (client_secret_of provider given.client_secret_key) _ h3 in
      let (_, checked, h5) =
        bind-eq_ok (check_endpoints provider given.flow token_url endpoints) _ h4 in
      let (_, c1, k1) =
        bind-eq_ok
          (bail_if
            (same_flow given.flow OAuthFlow.auth_code_pkce
              && not (is_some endpoints.authorization_endpoint))
            _)
          _ checked in
      let (_, c2, k2) =
        bind-eq_ok
          (bail_if
            (same_flow given.flow OAuthFlow.device_code
              && not (is_some endpoints.device_authorization_endpoint))
            _)
          _ k1 in
      let (_, c3, k3) = bind-eq_ok (validate_oauth_endpoint provider token_url) _ k2 in
      let (_, c4, k4) =
        bind-eq_ok (validate_optional provider endpoints.authorization_endpoint) _ k3 in
      subst HasSafeUrls (ok-injective h5) (record {
        token = validate_oauth_endpoint-IsSafeUrl token_url c3;
        authorization = validate_optional-SafeIfGiven endpoints.authorization_endpoint c4;
        device = validate_optional-SafeIfGiven endpoints.device_authorization_endpoint k4;
        authorizes = (bail_if_iff _ _).0 c1;
        devices = (bail_if_iff _ _).0 c2;
      })

-- ===== src/Mcp/Auth/Verification.antt =====
-- The verification of a token: fetch_jwks and verify_token of src/mcp/auth.rs.
use earl.Prelude.{
  false, not, none, some, List, [], length, any, ltb, some_and, Result, ok, err, ◌>>=◌, bail_if,
  or_fail, map_err,
}
use earl.Text.{Text, codes, text_eq, is_blank, len}
use earl.Ssrf.Dns.{resolve_and_validate_host}
use earl.Mcp.{Subject}
use earl.Mcp.Auth.{
  Services, ResolvedJwtConfig, JwkKey, JwksCache, AuthError, FetchError, Header, Moment,
  max_kid_length, max_jwks_response_bytes, contains_algorithm, discriminant, get_str, kty_of,
  get_or_refresh_keys, expected_kty, find_key, validation_of, decoded, or_invalid,
}

module _ (services : Services) (config : ResolvedJwtConfig) where
  unfoldable pub fetch_jwks : Result FetchError (List JwkKey)
  unfolding resolve_and_validate_host
  fetch_jwks = do
    url ← or_fail (services.url_host config.jwks_uri) FetchError.invalid_url
    host ← or_fail url FetchError.no_host
    ips ← map_err FetchError.refused_host (resolve_and_validate_host services.resolver host false)
    answer ← or_fail (services.fetch config.jwks_uri) FetchError.unreachable
    success ← bail_if (not answer.is_success) FetchError.bad_status
    small ← bail_if (ltb max_jwks_response_bytes (length answer.body)) FetchError.too_large
    or_fail (services.parse_jwks answer.body) FetchError.unparsable

  unfoldable pub check_token_header : Text → Result AuthError Header
  unfolding len discriminant any
  check_token_header token = do
    header ← or_invalid (services.decode_header token) (codes "failed to decode token header")
    short ←
        bail_if (some_and (λ kid. ltb max_kid_length (len kid)) header.kid)
          (AuthError.invalid (codes "kid exceeds maximum length"))
    allowed ←
        bail_if (not (contains_algorithm config.algorithms header.alg))
          (AuthError.invalid (codes "token uses disallowed algorithm"))
    ok header

  -- The key for a header, out of the keys that were served.
  unfoldable pub signing_key : Header → List JwkKey → Result AuthError JwkKey
  unfolding find_key expected_kty get_str text_eq
  signing_key header keys = do
    jwk ← or_invalid (find_key header.kid keys) (codes "no matching signing key found")
    kty ← or_invalid (expected_kty header.alg) (codes "unsupported algorithm")
    fits ←
        bail_if
          (not (text_eq (services.to_uppercase (elim (kty_of jwk) [ none ↦ [] | some k ↦ k ])) kty))
          (AuthError.invalid (codes "signing key type mismatch"))
    parsed ←
        bail_if (not (services.is_jwk jwk))
          (AuthError.invalid (codes "failed to parse signing key"))
    created ←
        bail_if (not (services.makes_key jwk))
          (AuthError.invalid (codes "failed to create decoding key"))
    ok jwk

  unfoldable pub read_claims : Text → JwkKey → Result AuthError Subject
  unfolding validation_of is_blank
  read_claims token jwk = do
    claims ← decoded (services.decode token jwk (validation_of config))
    filled ← bail_if (is_blank claims.sub) (AuthError.invalid (codes "sub claim is empty"))
    ok (record { sub = claims.sub; jti = claims.jti })

  unfoldable pub verify_with :
      Text → Header → Result FetchError (List JwkKey) → Result AuthError Subject
  unfolding signing_key read_claims
  verify_with token header fetched = do
    keys ← map_err (λ e. AuthError.invalid (codes "failed to fetch signing keys")) fetched
    jwk ← signing_key header keys
    read_claims token jwk

  unfoldable pub verify_token : Moment → Text → JwksCache → Result AuthError Subject × JwksCache
  unfolding check_token_header verify_with get_or_refresh_keys fetch_jwks
  verify_token moment token cache = elim (check_token_header token) [
    | err e ↦ (err e, cache)
    | ok header ↦
        (let (keys, next) = get_or_refresh_keys config moment header.kid fetch_jwks cache in
          (verify_with token header keys, next))
  ]

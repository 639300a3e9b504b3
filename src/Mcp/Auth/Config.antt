-- ===== src/Mcp/Auth/Config.antt =====
-- The settings of JWT authentication: JwtState::new of src/mcp/auth.rs.
use earl.Prelude.{
  ℕ, ◌+◌, ◌-◌, false, Option, none, some, List, [], ◌∷◌, length, ltb, is_empty, if◌then◌else◌,
  Result, ok, err, ◌>>=◌, bail_if, or_fail, map_err,
}
use earl.Text.{Text, codes, text_eq}
use earl.Ssrf.Dns.{DnsError, resolve_and_validate_host}
use earl.Mcp.Auth.{Services, Algorithm, ResolvedJwtConfig, JwksCache, max_jwks_response_bytes, secs}

pub record JwtConfig : Type 0 where
  pub oidc_discovery_url : Option Text
  pub issuer : Option Text
  pub jwks_uri : Option Text
  pub audience : Text
  pub algorithms : List Text
  pub clock_skew_seconds : ℕ
  pub jwks_cache_max_age_seconds : ℕ

pub data ConfigError : Type 0 where
  invalid_url no_host unreachable too_large unparsable no_issuer no_jwks_uri no_algorithms :
      ConfigError
  refused_host : DnsError → ConfigError
  unsupported_algorithm : Text → ConfigError

abbrev min : ℕ → ℕ → ℕ
min a b = if ltb a b then a else b

-- The `match` on the name in upper case.
unfoldable pub algorithm_named : Text → Result ConfigError Algorithm
unfolding text_eq
algorithm_named name =
    if text_eq name (codes "RS256")
    then ok Algorithm.rs256
    else if text_eq name (codes "RS384")
    then ok Algorithm.rs384
    else if text_eq name (codes "RS512")
    then ok Algorithm.rs512
    else if text_eq name (codes "ES256")
    then ok Algorithm.es256
    else if text_eq name (codes "ES384")
    then ok Algorithm.es384
    else if text_eq name (codes "PS256")
    then ok Algorithm.ps256
    else if text_eq name (codes "PS384")
    then ok Algorithm.ps384
    else if text_eq name (codes "PS512")
    then ok Algorithm.ps512
    else if text_eq name (codes "EDDSA")
    then ok Algorithm.ed_dsa
    else err (ConfigError.unsupported_algorithm name)

module _ (services : Services) where
  unfoldable pub parse_algorithms : List Text → Result ConfigError (List Algorithm)
  unfolding algorithm_named
  parse_algorithms [] = ok []
  parse_algorithms (name ∷ names) = do
    alg ← algorithm_named (services.to_uppercase name)
    more ← parse_algorithms names
    ok (alg ∷ more)

  -- Resolves the host of a URL, under the guard.
  unfoldable pub check_host : Text → Result ConfigError (Unit {0})
  unfolding resolve_and_validate_host
  check_host uri = do
    url ← or_fail (services.url_host uri) ConfigError.invalid_url
    host ← or_fail url ConfigError.no_host
    ips ← map_err ConfigError.refused_host (resolve_and_validate_host services.resolver host false)
    ok tt

  -- The issuer and the URI of its keys, by discovery or as they are given.
  unfoldable pub issuer_of : JwtConfig → Result ConfigError (Text × Text)
  unfolding check_host
  issuer_of config = elim config.oidc_discovery_url [
    | some discovery_url ↦ (do
      safe ← check_host discovery_url
      answer ← or_fail (services.fetch discovery_url) ConfigError.unreachable
      small ← bail_if (ltb max_jwks_response_bytes (length answer.body)) ConfigError.too_large
      or_fail (services.parse_discovery answer.body) ConfigError.unparsable)
    | none ↦ (do
      issuer ← or_fail config.issuer ConfigError.no_issuer
      jwks_uri ← or_fail config.jwks_uri ConfigError.no_jwks_uri
      ok (issuer, jwks_uri))
  ]

  unfoldable pub resolve_config : JwtConfig → Result ConfigError ResolvedJwtConfig
  unfolding issuer_of check_host parse_algorithms
  resolve_config config = do
    (issuer, jwks_uri) ← issuer_of config
    safe ← check_host jwks_uri
    algorithms ← parse_algorithms config.algorithms
    some_algorithm ← bail_if (is_empty algorithms) ConfigError.no_algorithms
    ok (record {
      issuer = issuer;
      jwks_uri = jwks_uri;
      audience = config.audience;
      algorithms = algorithms;
      clock_skew_seconds = min config.clock_skew_seconds 300;
      jwks_cache_max_age_seconds = config.jwks_cache_max_age_seconds;
    })

-- The cache of a new state, which is empty and too old.
unfoldable pub new_cache : ResolvedJwtConfig → ℕ → JwksCache
new_cache config now = record {
  keys = [];
  fetched_at = now - secs (config.jwks_cache_max_age_seconds + 1);
  last_kid_miss_refresh = none;
}

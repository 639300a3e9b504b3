-- ===== src/Mcp/Auth.antt =====
-- JWT authentication: src/mcp/auth.rs. Instants and durations are numbers of nanoseconds. The HTTP
-- client, the crate jsonwebtoken and the readers of JSON are parameters.
pub mod Config
pub mod Keys
pub mod Verification
pub mod Choice
pub mod Verified
use earl.Prelude.{
  ℕ, ◌+◌, ◌-◌, ◌*◌, ◌%◌, Bool, true, false, not, ◌&&◌, ◌||◌, Option, none, some, List, [], ◌∷◌,
  length, any, ltb, ◌==◌, is_empty, is_some, some_and, if◌then◌else◌, Result, ok, err, ◌>>=◌,
  bail_if, or_fail, map_err,
}
use earl.Text.{Text, codes, text_eq, is_blank, len}
use earl.Json.{Value, Fields, Items}
use earl.Ssrf.{IpAddr}
use earl.Ssrf.Dns.{DnsError, resolve_and_validate_host}
use earl.Mcp.{Subject}

abbrev pub secs : ℕ → ℕ
secs n = n * 1000000000

abbrev pub max_kid_length : ℕ
max_kid_length = 256

abbrev pub max_jwks_response_bytes : ℕ
max_jwks_response_bytes = 1048576

abbrev pub kid_miss_refresh_cooldown : ℕ
kid_miss_refresh_cooldown = secs 30

abbrev pub stale_grace_period : ℕ
stale_grace_period = secs 300

-- `Algorithm` of jsonwebtoken.
pub data Algorithm : Type 0 where
  hs256 hs384 hs512 es256 es384 rs256 rs384 rs512 ps256 ps384 ps512 ed_dsa : Algorithm

unfoldable pub discriminant : Algorithm → ℕ
discriminant Algorithm.hs256 = 0
discriminant Algorithm.hs384 = 1
discriminant Algorithm.hs512 = 2
discriminant Algorithm.es256 = 3
discriminant Algorithm.es384 = 4
discriminant Algorithm.rs256 = 5
discriminant Algorithm.rs384 = 6
discriminant Algorithm.rs512 = 7
discriminant Algorithm.ps256 = 8
discriminant Algorithm.ps384 = 9
discriminant Algorithm.ps512 = 10
discriminant Algorithm.ed_dsa = 11

abbrev pub contains_algorithm : List Algorithm → Algorithm → Bool
contains_algorithm algorithms alg = any (λ a. discriminant a == discriminant alg) algorithms

pub record ResolvedJwtConfig : Type 0 where
  pub issuer : Text
  pub jwks_uri : Text
  pub audience : Text
  pub algorithms : List Algorithm
  pub clock_skew_seconds : ℕ
  pub jwks_cache_max_age_seconds : ℕ

-- A key is its JSON.
abbrev pub JwkKey : Type 0
JwkKey = Value

string_field : Text → Fields → Option Text
unfolding text_eq
string_field name Fields.end = none
string_field name (Fields.field key value more) =
    let later = string_field name more in
    if text_eq key name then elim value [ Value.string s ↦ some s | _ ↦ none ] else later

unfoldable pub get_str : Text → JwkKey → Option Text
unfolding string_field
get_str name (Value.object fields) = string_field name fields
get_str name _ = none

abbrev pub kid_of : JwkKey → Option Text
kid_of key = get_str (codes "kid") key

abbrev pub kty_of : JwkKey → Option Text
kty_of key = get_str (codes "kty") key

pub record JwksCache : Type 0 where
  pub keys : List JwkKey
  pub fetched_at : ℕ
  pub last_kid_miss_refresh : Option ℕ

pub data AuthError : Type 0 where
  missing expired : AuthError
  invalid : Text → AuthError

pub data FetchError : Type 0 where
  invalid_url no_host unreachable bad_status too_large unparsable : FetchError
  refused_host : DnsError → FetchError

-- The header of a token, and its claims.
pub record Header : Type 0 where
  pub kid : Option Text
  pub alg : Algorithm

pub record Claims : Type 0 where
  pub sub : Text
  pub jti : Option Text

pub record Validation : Type 0 where
  pub issuer : Text
  pub audience : Text
  pub validate_nbf : Bool
  pub leeway : ℕ
  pub algorithms : List Algorithm
  pub required_spec_claims : List Text

-- The answer of the HTTP client.
pub record Answer : Type 0 where
  pub is_success : Bool
  pub body : List ℕ

-- `decode` gives none where the signature has expired and `some none` where it refuses the token for
-- another reason.
pub record Services : Type 0 where
  pub resolver : Option (Text → Option (List IpAddr))
  pub url_host : Text → Option (Option Text)
  pub fetch : Text → Option Answer
  pub parse_jwks : List ℕ → Option (List JwkKey)
  pub parse_discovery : List ℕ → Option (Text × Text)
  pub to_uppercase : Text → Text
  pub decode_header : Text → Option Header
  pub is_jwk : JwkKey → Bool
  pub makes_key : JwkKey → Bool
  pub decode : Text → JwkKey → Validation → Option (Option Claims)

-- What a call sees of its process: its number, and the time at which it starts, at which fetched keys
-- are stored and at which the miss of a key is noted.
pub record Moment : Type 0 where
  pub process_id : ℕ
  pub now : ℕ
  pub stored : ℕ
  pub noted : ℕ

unfoldable pub max_age_of : ResolvedJwtConfig → Moment → ℕ
max_age_of config moment =
    secs config.jwks_cache_max_age_seconds + secs (moment.process_id % 31 + 60)

abbrev pub has_kid : List JwkKey → Text → Bool
has_kid keys k = any (λ key. some_and (λ kid. text_eq kid k) (kid_of key)) keys

-- Whether the keys of the cache are served without a fetch.
unfoldable pub serves_cache : ResolvedJwtConfig → Moment → Option Text → JwksCache → Bool
unfolding max_age_of get_str text_eq any
serves_cache config moment kid cache =
    ltb (moment.now - cache.fetched_at) (max_age_of config moment)
    && not (is_empty cache.keys)
    && elim kid [
      | none ↦ true
      | some k ↦
          has_kid cache.keys k
          || some_and (λ last. ltb (moment.now - last) kid_miss_refresh_cooldown)
              cache.last_kid_miss_refresh
    ]

-- Whether keys that could not be refreshed are served still.
unfoldable pub serves_stale : ResolvedJwtConfig → Moment → JwksCache → Bool
unfolding max_age_of
serves_stale config moment cache =
    ltb (moment.now - cache.fetched_at) (max_age_of config moment + stale_grace_period)
    && not (is_empty cache.keys)

-- With the outcome of the fetch, which is made only where the cache is not served.
unfoldable pub get_or_refresh_keys :
    ResolvedJwtConfig
    → Moment
    → Option Text
    → Result FetchError (List JwkKey)
    → JwksCache
    → Result FetchError (List JwkKey) × JwksCache
unfolding serves_cache serves_stale
get_or_refresh_keys config moment kid fetched cache =
    if serves_cache config moment kid cache then (ok cache.keys, cache) else elim fetched [
      | ok keys ↦ (
        ok keys,
        record {
          keys = keys;
          fetched_at = moment.stored;
          last_kid_miss_refresh =
              if is_some kid then some moment.noted else cache.last_kid_miss_refresh;
        },
      )
      | err e ↦ (if serves_stale config moment cache then ok cache.keys else err e, cache)
    ]

unfoldable pub expected_kty : Algorithm → Option Text
expected_kty Algorithm.hs256 = none
expected_kty Algorithm.hs384 = none
expected_kty Algorithm.hs512 = none
expected_kty Algorithm.es256 = some (codes "EC")
expected_kty Algorithm.es384 = some (codes "EC")
expected_kty Algorithm.ed_dsa = some (codes "OKP")
expected_kty _ = some (codes "RSA")

find_kid : Text → List JwkKey → Option JwkKey
unfolding text_eq get_str
find_kid k [] = none
find_kid k (key ∷ keys) =
    let later = find_kid k keys in
    if some_and (λ kid. text_eq kid k) (kid_of key) then some key else later

unfoldable pub find_key : Option Text → List JwkKey → Option JwkKey
unfolding find_kid
find_key none [] = none
find_key none (key ∷ keys) = some key
find_key (some k) keys = find_kid k keys

unfoldable pub validation_of : ResolvedJwtConfig → Validation
validation_of config = record {
  issuer = config.issuer;
  audience = config.audience;
  validate_nbf = true;
  leeway = config.clock_skew_seconds;
  algorithms = config.algorithms;
  required_spec_claims = codes "exp" ∷ codes "sub" ∷ codes "iss" ∷ codes "aud" ∷ [];
}

abbrev pub decoded : Option (Option Claims) → Result AuthError Claims
decoded none = err AuthError.expired
decoded (some none) = err (AuthError.invalid (codes "token validation failed"))
decoded (some (some claims)) = ok claims

abbrev pub or_invalid : {A : Type 0} → Option A → Text → Result AuthError A
or_invalid o reason = or_fail o (AuthError.invalid reason)

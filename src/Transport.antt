-- ===== src/Transport.antt =====
-- The transport settings of an operation: src/protocol/transport.rs, with `ResolvedTransport` of
-- crates/earl-core/src/transport.rs. Durations are in milliseconds; `usize` has 64 bits.
pub mod Bounds
pub mod Accepted
mod Tests
use earl.Prelude.{
  ℕ, ◌*◌, ◌^◌, Bool, true, false, not, Option, none, some, List, [], ◌∷◌, ◌==◌, ltb, is_empty,
  if◌then◌else◌, Result, ok, err, ◌>>=◌,
}
use earl.Text.{Text, codes, text_eq, trim}
use earl.Text.Keys.{Map, lookup}
use earl.Schema.{RedirectTemplate, RetryTemplate, TlsTemplate, TransportTemplate}

pub record ProxyProfile : Type 0 where
  pub url : Text

pub data TlsVersion : Type 0 where
  tls_1_0 tls_1_1 tls_1_2 tls_1_3 : TlsVersion

pub data TransportError : Type 0 where
  unsupported_min_version unknown_proxy_profile empty_proxy_url : (name : Text) → TransportError

pub record ResolvedTransport : Type 0 where
  pub timeout : ℕ
  pub follow_redirects : Bool
  pub max_redirect_hops : ℕ
  pub retry_max_attempts : ℕ
  pub retry_backoff : ℕ
  pub retry_on_status : List ℕ
  pub compression : Bool
  pub tls_min_version : Option TlsVersion
  pub proxy_url : Option Text
  pub max_response_bytes : ℕ

-- `and_then` and `unwrap_or`.
abbrev pub and_then {ℓ} : {A B : Type ℓ} → Option A → (A → Option B) → Option B
and_then none f = none
and_then (some a) f = f a

abbrev pub unwrap_or {ℓ} : {A : Type ℓ} → Option A → A → A
unwrap_or none d = d
unwrap_or (some a) d = a

abbrev pub default_max_response_bytes : ℕ
default_max_response_bytes = 8 * 1024 * 1024

abbrev pub min_bytes : ℕ
min_bytes = 1024

abbrev pub max_bytes : ℕ
max_bytes = 128 * 1024 * 1024

abbrev pub clamp : ℕ → ℕ → ℕ → ℕ
clamp lo hi v = if ltb v lo then lo else if ltb hi v then hi else v

-- `usize::try_from(v).ok()`.
abbrev pub try_usize : ℕ → Option ℕ
try_usize v = if ltb v (2 ^ 64) then some v else none

-- `.map(str::trim).filter(|v| !v.is_empty())`.
unfoldable pub trimmed_name : Option Text → Option Text
unfolding trim
trimmed_name none = none
trimmed_name (some raw) = if not (is_empty (trim raw)) then some (trim raw) else none

abbrev pub raw_min_version : Option TransportTemplate → Option Text
raw_min_version input = and_then (and_then input (λ t. t.tls)) (λ tls. tls.min_version)

unfoldable pub version_of : Text → Result TransportError (Option TlsVersion)
unfolding text_eq
version_of raw =
    if text_eq raw (codes "1.0")
    then ok (some TlsVersion.tls_1_0)
    else if text_eq raw (codes "1.1")
    then ok (some TlsVersion.tls_1_1)
    else if text_eq raw (codes "1.2")
    then ok (some TlsVersion.tls_1_2)
    else if text_eq raw (codes "1.3")
    then ok (some TlsVersion.tls_1_3)
    else err (TransportError.unsupported_min_version raw)

unfoldable pub parse_tls_min_version :
    Option TransportTemplate → Result TransportError (Option TlsVersion)
unfolding trimmed_name version_of
parse_tls_min_version input = elim (trimmed_name (raw_min_version input)) [
  | none ↦ ok none
  | some raw ↦ version_of raw
]

abbrev pub raw_proxy_profile : Option TransportTemplate → Option Text
raw_proxy_profile input = and_then input (λ t. t.proxy_profile)

unfoldable pub proxy_url_of : Text → Option ProxyProfile → Result TransportError (Option Text)
unfolding trim
proxy_url_of profile_name none = err (TransportError.unknown_proxy_profile profile_name)
proxy_url_of profile_name (some profile) =
    if is_empty (trim profile.url)
    then err (TransportError.empty_proxy_url profile_name)
    else ok (some (trim profile.url))

unfoldable pub resolve_proxy_url :
    Option TransportTemplate → Map ProxyProfile → Result TransportError (Option Text)
unfolding trimmed_name lookup proxy_url_of
resolve_proxy_url input proxy_profiles = elim (trimmed_name (raw_proxy_profile input)) [
  | none ↦ ok none
  | some profile_name ↦ proxy_url_of profile_name (lookup profile_name proxy_profiles)
]

abbrev pub redirects_of : Option TransportTemplate → Bool × ℕ
redirects_of input = elim (and_then input (λ t. t.redirects)) [
  | none ↦ (true, 5)
  | some r ↦ (r.follow, r.max_hops)
]

-- Attempts, backoff and statuses.
abbrev pub retry_of : Option TransportTemplate → ℕ × ℕ × List ℕ
retry_of input = elim (and_then input (λ t. t.retry)) [
  | none ↦ (1, 250, [])
  | some r ↦ (
    if r.max_attempts == 0 then 1 else r.max_attempts,
    if ltb r.backoff_ms 1 then 1 else r.backoff_ms,
    r.retry_on_status,
  )
]

-- `max_response_bytes` in front of its `clamp`.
abbrev pub requested_bytes : Option TransportTemplate → ℕ
requested_bytes input =
    unwrap_or (and_then (and_then input (λ t. t.max_response_bytes)) try_usize)
      default_max_response_bytes

unfoldable pub resolve_transport :
    Option TransportTemplate → Map ProxyProfile → Result TransportError ResolvedTransport
unfolding parse_tls_min_version resolve_proxy_url
resolve_transport input proxy_profiles =
    let timeout = unwrap_or (and_then input (λ t. t.timeout_ms)) 30000 in
    let (follow_redirects, max_redirect_hops) = redirects_of input in
    let (retry_max_attempts, retry_backoff, retry_on_status) = retry_of input in
    let compression = unwrap_or (and_then input (λ t. t.compression)) true in
    let max_response_bytes = clamp min_bytes max_bytes (requested_bytes input) in
    do
      tls_min_version ← parse_tls_min_version input
      proxy_url ← resolve_proxy_url input proxy_profiles
      ok (record {
        timeout = timeout;
        follow_redirects = follow_redirects;
        max_redirect_hops = max_redirect_hops;
        retry_max_attempts = retry_max_attempts;
        retry_backoff = retry_backoff;
        retry_on_status = retry_on_status;
        compression = compression;
        tls_min_version = tls_min_version;
        proxy_url = proxy_url;
        max_response_bytes = max_response_bytes;
      })

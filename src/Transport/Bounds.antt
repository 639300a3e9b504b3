-- ===== src/Transport/Bounds.antt =====
-- The limits that every resolved transport keeps: src/protocol/transport.rs.
use earl.Prelude.{
  ℕ, ◌≤◌, ◌≡◌, inl, inr, Option, Option-cases, arith, ok, bind-eq_ok, ok-injective, subst,
}
use earl.Text.Keys.{Map}
use earl.Schema.{TransportTemplate}
use earl.Transport.{
  ProxyProfile, ResolvedTransport, min_bytes, max_bytes, clamp, requested_bytes, and_then, retry_of,
  resolve_transport, parse_tls_min_version, resolve_proxy_url,
}

pub record IsBounded (t : ResolvedTransport) : Type 0 where
  pub at_least : min_bytes ≤ t.max_response_bytes
  pub at_most : t.max_response_bytes ≤ max_bytes
  pub attempts : 1 ≤ t.retry_max_attempts
  pub backoff : 1 ≤ t.retry_backoff

clamp-at_least : (v : ℕ) → min_bytes ≤ clamp min_bytes max_bytes v
clamp-at_least v = ground arith

clamp-at_most : (v : ℕ) → clamp min_bytes max_bytes v ≤ max_bytes
clamp-at_most v = ground arith

retry-attempts : (input : Option TransportTemplate) → 1 ≤ (retry_of input).0
retry-attempts input = elim (Option-cases (and_then input (λ t. t.retry))) [
  | inl e ↦ rw (e, retry_of) (ground arith)
  | inr (r, e) ↦ rw (e, retry_of) (ground arith)
]

retry-backoff : (input : Option TransportTemplate) → 1 ≤ (retry_of input).1
retry-backoff input = elim (Option-cases (and_then input (λ t. t.retry))) [
  | inl e ↦ rw (e, retry_of) (ground arith)
  | inr (r, e) ↦ rw (e, retry_of) (ground arith)
]

-- A transport that is resolved reads at most 128 MiB and no less than 1 KiB of a response, makes at
-- least one attempt and waits at least a millisecond between attempts, whatever the template asks.
pub resolve_transport-IsBounded :
    (input : Option TransportTemplate) (proxy_profiles : Map ProxyProfile) (t : ResolvedTransport)
    → resolve_transport input proxy_profiles ≡ ok t
    → IsBounded t
unfolding resolve_transport
resolve_transport-IsBounded input proxy_profiles t h =
    let (v, _, h1) = bind-eq_ok (parse_tls_min_version input) _ h in
    let (u, _, h2) = bind-eq_ok (resolve_proxy_url input proxy_profiles) _ h1 in
    subst (λ x. IsBounded x) (ok-injective h2)
      (record {
        at_least = clamp-at_least (requested_bytes input);
        at_most = clamp-at_most (requested_bytes input);
        attempts = retry-attempts input;
        backoff = retry-backoff input;
      })

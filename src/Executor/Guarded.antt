-- ===== src/Executor/Guarded.antt =====
-- Where the HTTP requests of an execution go, over all attempts and redirects: src/protocol/executor.rs
-- with src/security/dns.rs, crates/earl-core/src/allowlist.rs and the HTTP executor.
use earl.Prelude.{
  ℕ, zero, suc, ◌+◌, ◌*◌, ◌≤◌, Bool, false, ◌≡◌, refl, ap, ◌∙◌, sym, subst, some, inl, inr, Option,
  none, List, [], ◌∷◌, ◌++◌, length, is_empty, All, All-map, Result, ok, bind-eq_ok, map_err-eq_ok,
  or_fail, arith, ◌⊎◌,
}
use earl.Ssrf.{IpAddr}
use earl.Ssrf.Dns.{Passes, resolve_and_validate_host, resolve_and_validate_host-Passes}
use earl.Allowlist.{Url, ensure_url_allowed}
use earl.Http.{RawExecutionResult, Sent, HostValidator, missing_host, host_refused}
use earl.Http.Client.{socket_addrs}
use earl.Http.Redirects.{execute_http_once_with_host_validator, raw_result}
use earl.Http.Guarded.{IsChecked, execute_hops-AllChecked, length-execute_hops}
use earl.Executor.{
  backoff, PreparedProtocolData, PreparedRequest, ExecuteError, ExecutionResult, Outside, Verdict,
  retry, done, to_context, host_validator, attempt_once, finish_raw, judge, execute_from,
  execute_attempts, attempts_of, execute_prepared_request_with_host_validator,
  execute_prepared_request,
}

suc_mul : (r m : ℕ) → suc r * m ≡ r * m + m
suc_mul r m = grind arith

no_more : {a b : ℕ} → a ≤ 0 + b → a ≤ b
no_more h = omega arith

-- The loop over attempts keeps what every attempt keeps of the requests that were sent.
module _ (attempts : ℕ) (retry_backoff : ℕ) (retry_on_status : List ℕ)
    (run : ℕ → List Sent → List Sent × Result ExecuteError RawExecutionResult)
    (finish : RawExecutionResult → Result ExecuteError ExecutionResult) where
  Verdict-cases :
      (v : Verdict)
      → ((e : Option ExecuteError) × (v ≡ retry e))
        ⊎ ((r : Result ExecuteError ExecutionResult) × (v ≡ done r))
  Verdict-cases (retry e) = inl (e, refl)
  Verdict-cases (done r) = inr (r, refl)

  execute_from-All :
      (P : Sent → Type 0)
      → ((attempt : ℕ) (sent : List Sent) → All P sent → All P (run attempt sent).0)
      → (rounds attempt : ℕ) (last_err : Option ExecuteError) (sent : List Sent) (sleeps : List ℕ)
      → All P sent
      → All P
          (execute_from attempts retry_backoff retry_on_status run finish rounds attempt last_err
            sent sleeps).sent
  unfolding execute_from
  execute_from-All P keep zero attempt last_err sent sleeps h = h
  execute_from-All P keep (suc rounds) attempt last_err sent sleeps h =
      elim (Verdict-cases (
        judge attempts retry_backoff retry_on_status run finish attempt last_err
          (run attempt sent).1)) [
            | inr (r, e) ↦ rw (e, execute_from) (keep attempt sent h)
            | inl (l, e) ↦
                rw (e, execute_from)
                  (execute_from-All P keep rounds (attempt + 1) l (run attempt sent).0 _
                    (keep attempt sent h))
          ]

  length-execute_from :
      (most : ℕ)
      → ((attempt : ℕ) (sent : List Sent) → length (run attempt sent).0 ≤ length sent + most)
      → (rounds attempt : ℕ) (last_err : Option ExecuteError) (sent : List Sent) (sleeps : List ℕ)
      → length
          (execute_from attempts retry_backoff retry_on_status run finish rounds attempt last_err
            sent sleeps).sent
        ≤ length sent + rounds * most
  unfolding execute_from
  length-execute_from most grow zero attempt last_err sent sleeps = grind arith
  length-execute_from most grow (suc rounds) attempt last_err sent sleeps =
      elim (Verdict-cases (
        judge attempts retry_backoff retry_on_status run finish attempt last_err
          (run attempt sent).1)) [
            | inr (r, e) ↦
                rw (e, execute_from) (omega (arith, grow attempt sent, suc_mul rounds most))
            | inl (l, e) ↦
                rw (e, execute_from)
                  (omega (
                    arith,
                    grow attempt sent,
                    suc_mul rounds most,
                    length-execute_from most grow rounds (attempt + 1) l (run attempt sent).0
                        (sleeps ++ backoff retry_backoff attempt ∷ []),
                  ))
          ]

-- What holds of a request when it goes out: its URL fits the allowlist, and its client has the proxy of
-- the settings and pins the host and port of the URL to addresses that the guard lets pass, at least
-- one.
pub record IsGuardedRequest (prepared : PreparedRequest) (request : Sent) : Type 0 where
  pub allowed : ensure_url_allowed request.url prepared.allow_rules ≡ ok tt
  pub host : request.url.host_str ≡ some request.client.host
  pub pinned : is_empty request.client.addresses ≡ false
  pub passes : All (λ a. Passes prepared.allow_private_ips a.0) request.client.addresses
  pub ports : All (λ a. request.url.port_or_known_default ≡ some a.1) request.client.addresses
  pub proxied : request.client.proxy ≡ prepared.transport.proxy_url

module _ (P : IpAddr → Type 0) where
  socket_addrs-All :
      (ips : List IpAddr) (port : ℕ) → All P ips → All (λ a. P a.0) (socket_addrs ips port)
  unfolding socket_addrs
  socket_addrs-All [] port h = tt
  socket_addrs-All (ip ∷ ips) port (p, h) = (p, socket_addrs-All ips port h)

socket_addrs-port :
    (ips : List IpAddr) (port : ℕ) (o : Option ℕ)
    → o ≡ some port
    → All (λ a. o ≡ some a.1) (socket_addrs ips port)
unfolding socket_addrs
socket_addrs-port [] port o h = tt
socket_addrs-port (ip ∷ ips) port o h = (h, socket_addrs-port ips port o h)

is_empty-socket_addrs :
    (ips : List IpAddr) (port : ℕ) → is_empty ips ≡ false → is_empty (socket_addrs ips port) ≡ false
unfolding socket_addrs
is_empty-socket_addrs [] port h = h
is_empty-socket_addrs (ip ∷ ips) port h = refl

module _ (outside : Outside) where
  host_validator-Passes :
      (flag : Bool) (sent : List Sent) (url : Url) (ips : List IpAddr)
      → host_validator outside flag sent url ≡ ok ips
      → All (Passes flag) ips
  unfolding host_validator
  host_validator-Passes flag sent url ips h =
      let (host, _, h1) = bind-eq_ok (or_fail url.host_str missing_host) _ h in
      let resolved =
        map_err-eq_ok host_refused (resolve_and_validate_host (outside.resolver sent) host flag)
          h1 in
      resolve_and_validate_host-Passes (outside.resolver sent) host flag ips resolved

  attempt_once-All :
      (protocol_data : PreparedProtocolData) (prepared : PreparedRequest)
      (validator : HostValidator) (attempt : ℕ) (sent : List Sent)
      → All (IsChecked validator (to_context prepared)) sent
      → All
          (IsChecked validator (to_context prepared))
          (attempt_once outside protocol_data prepared validator attempt sent).0
  unfolding attempt_once execute_http_once_with_host_validator
  attempt_once-All (PreparedProtocolData.http data_) prepared validator attempt sent h =
      execute_hops-AllChecked outside.network validator data_ (to_context prepared)
        (raw_result outside.network (to_context prepared)) sent h
  attempt_once-All (PreparedProtocolData.graphql data_) prepared validator attempt sent h =
      execute_hops-AllChecked outside.network validator data_ (to_context prepared)
        (raw_result outside.network (to_context prepared)) sent h
  attempt_once-All PreparedProtocolData.grpc prepared validator attempt sent h = h
  attempt_once-All PreparedProtocolData.bash prepared validator attempt sent h = h
  attempt_once-All PreparedProtocolData.sql prepared validator attempt sent h = h
  attempt_once-All PreparedProtocolData.browser prepared validator attempt sent h = h

  length-attempt_once :
      (protocol_data : PreparedProtocolData) (prepared : PreparedRequest)
      (validator : HostValidator) (attempt : ℕ) (sent : List Sent)
      → length (attempt_once outside protocol_data prepared validator attempt sent).0
        ≤ length sent + (prepared.transport.max_redirect_hops + 1)
  unfolding attempt_once execute_http_once_with_host_validator
  length-attempt_once (PreparedProtocolData.http data_) prepared validator attempt sent =
      length-execute_hops outside.network validator data_ (to_context prepared)
        (raw_result outside.network (to_context prepared)) sent
  length-attempt_once (PreparedProtocolData.graphql data_) prepared validator attempt sent =
      length-execute_hops outside.network validator data_ (to_context prepared)
        (raw_result outside.network (to_context prepared)) sent
  length-attempt_once PreparedProtocolData.grpc prepared validator attempt sent = omega arith
  length-attempt_once PreparedProtocolData.bash prepared validator attempt sent = omega arith
  length-attempt_once PreparedProtocolData.sql prepared validator attempt sent = omega arith
  length-attempt_once PreparedProtocolData.browser prepared validator attempt sent = omega arith

  IsChecked-IsGuardedRequest :
      (prepared : PreparedRequest) (request : Sent)
      → IsChecked (host_validator outside prepared.allow_private_ips) (to_context prepared) request
      → IsGuardedRequest prepared request
  IsChecked-IsGuardedRequest prepared request c =
      let back = sym c.pinned in
      record {
        allowed = c.allowed;
        host = c.host;
        pinned = ap is_empty c.pinned ∙ is_empty-socket_addrs c.ips c.port c.filled;
        passes = subst (All (λ a. Passes prepared.allow_private_ips a.0)) back (
            socket_addrs-All (Passes prepared.allow_private_ips) c.ips c.port (
              host_validator-Passes prepared.allow_private_ips c.before request.url c.ips
                c.validated));
        ports =
            subst (All (λ a. request.url.port_or_known_default ≡ some a.1)) back
              (socket_addrs-port c.ips c.port request.url.port_or_known_default c.has_port);
        proxied = c.proxied;
      }

  -- Every HTTP request of an execution, over all attempts and redirects, has a URL that the allowlist
  -- admits, and a client that pins the URL's host and port to at least one address, none of which the
  -- guard blocks, and that has the proxy of the transport settings, if they name one. The client uses
  -- its pinned addresses where it connects to the host itself; the address of a proxy is not checked.
  -- And there are at most as many requests as attempts times one more than the redirect hops.
  pub execute_prepared_request-AllGuarded :
      (prepared : PreparedRequest)
      → All (IsGuardedRequest prepared) (execute_prepared_request outside prepared).sent
        × (length (execute_prepared_request outside prepared).sent
            ≤ attempts_of prepared.transport * (prepared.transport.max_redirect_hops + 1))
  unfolding execute_prepared_request execute_prepared_request_with_host_validator execute_attempts
  execute_prepared_request-AllGuarded prepared =
      let validator = host_validator outside prepared.allow_private_ips in
      let attempts = attempts_of prepared.transport in
      let run = attempt_once outside prepared.protocol_data prepared validator in
      let finish = finish_raw outside prepared.result_template in
      (
        All-map (IsChecked validator (to_context prepared)) (IsGuardedRequest prepared) _
            (IsChecked-IsGuardedRequest prepared)
            (execute_from-All attempts prepared.transport.retry_backoff
              prepared.transport.retry_on_status run finish
              (IsChecked validator (to_context prepared))
              (attempt_once-All prepared.protocol_data prepared validator) attempts 1 none [] []
              tt),
        no_more (
            length-execute_from attempts prepared.transport.retry_backoff
              prepared.transport.retry_on_status run finish
              (prepared.transport.max_redirect_hops + 1)
              (length-attempt_once prepared.protocol_data prepared validator) attempts 1 none []
              []),
      )

-- ===== src/Http/Guarded.antt =====
-- Every request of the loop over redirects passes the allowlist and the host validator:
-- crates/earl-protocol-http/src/executor.rs with src/security/dns.rs.
use earl.Prelude.{
  some-injective, ℕ, zero, suc, ◌+◌, ◌≤◌, false, ◌&&◌, ◌≡◌, refl, sym, ◌∙◌, ap, subst, ◌⊎◌, inl,
  inr, Bool-cases, Option, none, some, List, [], ◌∷◌, ◌++◌, length, length-append, is_empty, leb,
  All, All-append, Result, Result-cases, ok, err, bind-eq_ok, bail_if, bail_if_iff, or_fail,
  or_fail-eq_ok, some_and, not, map_err, map_err-eq_ok, ok-injective, arith,
}
use earl.Text.{Text}
use earl.Ssrf.{IpAddr}
use earl.Allowlist.{Url, ensure_url_allowed}
use earl.Http.{
  PreparedBody, PreparedHttpData, ExecutionContext, HttpError, HttpClient, Sent, Response, Network,
  HostValidator, not_allowed,
}
use earl.Http.Client.{
  socket_addrs, client_of, prepare_hop, build_http_client, build_request, check_request,
}
use earl.Http.Redirects.{
  Hop, stop, again, after_redirect, after_response, after_send, hop_step, follow, execute_hops,
  redirect_url, is_redirection,
}

-- What is checked before a request goes out: its URL fits the allowlist, and its client has the proxy
-- of the settings and pins the host and port of the URL to the addresses that the validator gave.
pub record IsChecked (host_validator : HostValidator) (ctx : ExecutionContext) (request : Sent)
    : Type 0 where
  pub allowed : ensure_url_allowed request.url ctx.allow_rules ≡ ok tt
  pub before : List Sent
  pub ips : List IpAddr
  pub validated : host_validator before request.url ≡ ok ips
  pub filled : is_empty ips ≡ false
  pub host : request.url.host_str ≡ some request.client.host
  pub port : ℕ
  pub has_port : request.url.port_or_known_default ≡ some port
  pub pinned : request.client.addresses ≡ socket_addrs ips port
  pub proxied : request.client.proxy ≡ ctx.transport.proxy_url

pub Hop-cases :
    {A : Type 0} (hop : Hop A)
    → ((request : Option Sent) × (result : Result HttpError A) × (hop ≡ stop request result))
      ⊎ ((request : Sent) × (method : Text) × (body : PreparedBody) × (url : Url) × (hop
            ≡ again request method body url))
Hop-cases (stop request result) = inl (request, result, refl)
Hop-cases (again request method body url) = inr (request, method, body, url, refl)

module _ (net : Network) (host_validator : HostValidator) (http_data : PreparedHttpData)
    (ctx : ExecutionContext) where
  build_request-parts :
      (client : HttpClient) (method : Text) (url : Url) (body : PreparedBody) (request : Sent)
      → build_request net client http_data method url body ≡ ok request
      → (url ≡ request.url) × (client ≡ request.client)
  unfolding build_request
  build_request-parts client method url body request h =
      let (_, _, h1) = bind-eq_ok (check_request net http_data body) _ h in
      (ap Sent.url (ok-injective h1), ap Sent.client (ok-injective h1))

  build_http_client-parts :
      (url : Url) (ips : List IpAddr) (client : HttpClient)
      → build_http_client net ctx.transport url ips ≡ ok client
      → (is_empty ips ≡ false)
        × (url.host_str ≡ some client.host)
        × (client.proxy ≡ ctx.transport.proxy_url)
        × ((port : ℕ) × (url.port_or_known_default ≡ some port)
            × (client.addresses ≡ socket_addrs ips port))
  unfolding build_http_client client_of
  build_http_client-parts url ips client h =
      let (_, filled, h1) = bind-eq_ok (bail_if (is_empty ips) _) _ h in
      let (_, _, h2) =
        bind-eq_ok (bail_if (some_and (λ p. not (net.valid_proxy p)) ctx.transport.proxy_url) _) _
          h1 in
      let (host, has_host, h3) = bind-eq_ok (or_fail url.host_str _) _ h2 in
      let (port, has_port, h4) = bind-eq_ok (or_fail url.port_or_known_default _) _ h3 in
      let (_, _, h5) =
        bind-eq_ok (bail_if (not (net.client_builds (client_of ctx.transport host port ips))) _) _
          h4 in
      let made = ok-injective h5 in
      (
        (bail_if_iff _ _).0 filled,
        or_fail-eq_ok _ _ has_host ∙ ap (λ c. some c.host) made,
        sym (ap (λ c. c.proxy) made),
        (port, or_fail-eq_ok _ _ has_port, sym (ap (λ c. c.addresses) made)),
      )

  prepare_hop-IsChecked :
      (sent : List Sent) (method : Text) (url : Url) (body : PreparedBody) (request : Sent)
      → prepare_hop net host_validator http_data ctx sent method url body ≡ ok request
      → IsChecked host_validator ctx request
  unfolding prepare_hop
  prepare_hop-IsChecked sent method url body request h =
      let (_, allowed, h1) =
        bind-eq_ok (map_err not_allowed (ensure_url_allowed url ctx.allow_rules)) _ h in
      let (ips, validated, h2) = bind-eq_ok (host_validator sent url) _ h1 in
      let (client, built, h3) = bind-eq_ok (build_http_client net ctx.transport url ips) _ h2 in
      let (same_url, same_client) = build_request-parts client method url body request h3 in
      let (filled, host, proxied, (port, has_port, pinned)) =
        build_http_client-parts url ips client built in
      let back = sym same_url in
      let sent_by = sym same_client in
      record {
        allowed =
            subst (λ u. ensure_url_allowed u ctx.allow_rules ≡ ok tt) same_url
              (map_err-eq_ok not_allowed _ allowed);
        before = sent;
        ips = ips;
        validated = ap (host_validator sent) back ∙ validated;
        filled = filled;
        host = ap (λ u. u.host_str) back ∙ host ∙ ap (λ c. some c.host) same_client;
        port = port;
        has_port = ap (λ u. u.port_or_known_default) back ∙ has_port;
        pinned = ap (λ c. c.addresses) sent_by ∙ pinned;
        proxied = ap (λ c. c.proxy) sent_by ∙ proxied;
      }

  module _ {A : Type 0} (finish : Url → Response → Result HttpError A) where
    -- The request that a round sent, if it sent one.
    abbrev request_of : Hop A → Option Sent
    request_of (stop request result) = request
    request_of (again request method body url) = some request

    after_redirect-request :
        (request : Sent) (status : ℕ) (method : Text) (body : PreparedBody)
        (target : Result HttpError Url)
        → request_of (
            after_redirect net host_validator http_data ctx finish request status method body
              target)
          ≡ some request
    unfolding after_redirect
    after_redirect-request request status method body (err e) = refl
    after_redirect-request request status method body (ok url) = refl

    after_send-request :
        (hop : ℕ) (request : Sent) (method : Text) (body : PreparedBody) (url : Url)
        (response : Option Response)
        → request_of (
            after_send net host_validator http_data ctx finish hop request method body url response)
          ≡ some request
    unfolding after_send after_response
    after_send-request hop request method body url none = refl
    after_send-request hop request method body url (some response) =
        elim (Bool-cases (is_redirection response.status && ctx.transport.follow_redirects)) [
          | inl redirected ↦ elim (Bool-cases (leb ctx.transport.max_redirect_hops hop)) [
            | inl last ↦ rw (redirected, last) refl
            | inr more ↦
                rw (redirected, more)
                  (after_redirect-request request response.status method body
                    (redirect_url net response url))
          ]
          | inr final ↦ rw final refl
        ]

    hop_step-prepared :
        (hop : ℕ) (sent : List Sent) (method : Text) (body : PreparedBody) (url : Url)
        (built : Sent)
        → prepare_hop net host_validator http_data ctx sent method url body ≡ ok built
        → hop_step net host_validator http_data ctx finish hop sent method body url
          ≡ after_send net host_validator http_data ctx finish hop built method body url
              (net.send sent built)
    unfolding hop_step
    hop_step-prepared hop sent method body url built h = rw (h, hop_step) refl

    hop_step-refused :
        (hop : ℕ) (sent : List Sent) (method : Text) (body : PreparedBody) (url : Url)
        (e : HttpError)
        → prepare_hop net host_validator http_data ctx sent method url body ≡ err e
        → hop_step net host_validator http_data ctx finish hop sent method body url
          ≡ stop none (err e)
    unfolding hop_step
    hop_step-refused hop sent method body url e h = rw (h, hop_step) refl

    hop_step-IsChecked :
        (hop : ℕ) (sent : List Sent) (method : Text) (body : PreparedBody) (url : Url)
        (request : Sent)
        → request_of (hop_step net host_validator http_data ctx finish hop sent method body url)
          ≡ some request
        → IsChecked host_validator ctx request
    hop_step-IsChecked hop sent method body url request h =
        elim (Result-cases (prepare_hop net host_validator http_data ctx sent method url body)) [
          | inr (e, refused) ↦
              (let none_sent : ◌≡◌ {A = Option Sent} none (some request) =
                  ap request_of (sym (hop_step-refused hop sent method body url e refused)) ∙ h in
                cc)
          | inl (built, prepared) ↦
              (let same : some built ≡ some request =
                  sym (after_send-request hop built method body url (net.send sent built))
                  ∙ ap request_of (sym (hop_step-prepared hop sent method body url built prepared))
                  ∙ h in
                subst (IsChecked host_validator ctx) (some-injective same)
                  (prepare_hop-IsChecked sent method url body built prepared))
        ]

    follow-AllChecked :
        (rounds hop : ℕ) (sent : List Sent) (method : Text) (body : PreparedBody) (url : Url)
        → All (IsChecked host_validator ctx) sent
        → All
            (IsChecked host_validator ctx)
            (follow net host_validator http_data ctx finish rounds hop sent method body url).0
    unfolding follow
    follow-AllChecked zero hop sent method body url h = h
    follow-AllChecked (suc rounds) hop sent method body url h =
        elim (Hop-cases
          (hop_step net host_validator http_data ctx finish hop sent method body url)) [
            | inl (none, result, e) ↦ rw (e, follow) h
            | inl (some request, result, e) ↦
                rw (e, follow)
                  (All-append (IsChecked host_validator ctx) sent (request ∷ []) h
                    (hop_step-IsChecked hop sent method body url request (ap request_of e), tt))
            | inr (request, m, b, u, e) ↦
                rw (e, follow)
                  (follow-AllChecked rounds (hop + 1) (sent ++ request ∷ []) m b u (
                    All-append (IsChecked host_validator ctx) sent (request ∷ []) h
                      (hop_step-IsChecked hop sent method body url request (ap request_of e), tt)))
          ]

    follow-length :
        (rounds hop : ℕ) (sent : List Sent) (method : Text) (body : PreparedBody) (url : Url)
        → length (follow net host_validator http_data ctx finish rounds hop sent method body url).0
          ≤ length sent + rounds
    unfolding follow
    follow-length zero hop sent method body url = omega arith
    follow-length (suc rounds) hop sent method body url =
        elim (Hop-cases
          (hop_step net host_validator http_data ctx finish hop sent method body url)) [
            | inl (none, result, e) ↦ rw (e, follow) (omega arith)
            | inl (some request, result, e) ↦
                rw (e, follow) (omega (arith, length-append sent (request ∷ [])))
            | inr (request, m, b, u, e) ↦
                rw (e, follow)
                  (omega (
                    arith,
                    length-append sent (request ∷ []),
                    follow-length rounds (hop + 1) (sent ++ request ∷ []) m b u,
                  ))
          ]

    pub execute_hops-AllChecked :
        (before : List Sent)
        → All (IsChecked host_validator ctx) before
        → All
            (IsChecked host_validator ctx)
            (execute_hops net host_validator http_data ctx finish before).0
    unfolding execute_hops
    execute_hops-AllChecked before h =
        follow-AllChecked (suc ctx.transport.max_redirect_hops) 0 before http_data.method
          http_data.body http_data.url h

    pub length-execute_hops :
        (before : List Sent)
        → length (execute_hops net host_validator http_data ctx finish before).0
          ≤ length before + (ctx.transport.max_redirect_hops + 1)
    unfolding execute_hops
    length-execute_hops before = omega (
      arith,
      follow-length (suc ctx.transport.max_redirect_hops) 0 before http_data.method http_data.body
          http_data.url,
    )

-- ===== src/Http/Body.antt =====
-- How much of a response is kept, and where the loop over redirects ends:
-- crates/earl-protocol-http/src/executor.rs.
use earl.Prelude.{
  some-injective, Result-cases, ℕ, zero, suc, ◌+◌, ◌≤◌, false, ◌&&◌, ◌≡◌, ◌∙◌, ap, inl, inr,
  Bool-cases, Option, none, some, List, [], ◌∷◌, ◌++◌, length, length-append, ltb, leb, Result, ok,
  err, bind-eq_ok, ok-injective, arith, subst,
}
use earl.Text.{Text}
use earl.Allowlist.{Url}
use earl.Http.{
  HostValidator, PreparedHttpData, PreparedBody, Sent, RawExecutionResult, ExecutionContext,
  HttpError, Response, Network,
}
use earl.Http.Client.{prepare_hop}
use earl.Http.Guarded.{Hop-cases}
use earl.Http.Redirects.{
  redirect_url, execute_hops, execute_http_once_with_host_validator, Hop, stop, again,
  is_redirection, hop_step, follow, after_send, after_response, after_redirect, read_chunks,
  read_response_body_limited, raw_result,
}

read_chunks-le :
    (limit : ℕ) (chunks : List (Option (List ℕ))) (out body : List ℕ)
    → length out ≤ limit
    → read_chunks limit chunks out ≡ ok body
    → length body ≤ limit
unfolding read_chunks
read_chunks-le limit [] out body le h = subst (λ b. length b ≤ limit) (ok-injective h) le
read_chunks-le limit (none ∷ chunks) out body le h = absurd (ground arith)
read_chunks-le limit (some chunk ∷ chunks) out body le h =
    elim (Bool-cases (ltb limit (length out + length chunk))) [
      | inl over ↦ absurd (ground arith)
      | inr fits ↦
          read_chunks-le limit chunks (out ++ chunk) body (ground (arith, length-append out chunk))
            (ground arith)
    ]

raw_result-le :
    (net : Network) (ctx : ExecutionContext) (url : Url) (response : Response)
    (raw : RawExecutionResult)
    → raw_result net ctx url response ≡ ok raw
    → length raw.body ≤ ctx.transport.max_response_bytes
unfolding raw_result read_response_body_limited
raw_result-le net ctx url response raw h =
    let (body, read, h1) =
      bind-eq_ok (read_response_body_limited response ctx.transport.max_response_bytes) _ h in
    subst (λ r. length r.body ≤ ctx.transport.max_response_bytes) (ok-injective h1)
      (read_chunks-le ctx.transport.max_response_bytes response.chunks [] body (omega arith) read)

module _ (net : Network) (host_validator : HostValidator) (http_data : PreparedHttpData)
    (ctx : ExecutionContext) {A : Type 0} (finish : Url → Response → Result HttpError A) where
  -- A result of the loop is made from a response that is no redirect to be followed.
  abbrev IsFinal : A → Type 0
  IsFinal a =
      (url : Url) × (response : Response) × ((is_redirection response.status
          && ctx.transport.follow_redirects)
        ≡ false)
      × (finish url response ≡ ok a)

  result_of : Hop A → Option (Result HttpError A)
  result_of (stop request result) = some result
  result_of (again request method body url) = none

  after_redirect-not_ok :
      (request : Sent) (status : ℕ) (method : Text) (body : PreparedBody)
      (target : Result HttpError Url) (a : A)
      → result_of
          (after_redirect net host_validator http_data ctx finish request status method body target)
        ≡ some (ok a)
      → ⊥
  unfolding after_redirect result_of
  after_redirect-not_ok request status method body (err e) a h = cc
  after_redirect-not_ok request status method body (ok url) a h = cc

  after_response-IsFinal :
      (hop : ℕ) (request : Sent) (method : Text) (body : PreparedBody) (url : Url)
      (response : Response) (a : A)
      → result_of (
          after_response net host_validator http_data ctx finish hop request method body url
            response)
        ≡ some (ok a)
      → IsFinal a
  unfolding after_response result_of
  after_response-IsFinal hop request method body url response a =
      elim (Bool-cases (is_redirection response.status && ctx.transport.follow_redirects)) [
        | inr final ↦ rw final (λ h. (url, response, final, some-injective h))
        | inl redirected ↦ elim (Bool-cases (leb ctx.transport.max_redirect_hops hop)) [
          | inl last ↦ rw (redirected, last) (λ h. cc)
          | inr more ↦
              rw (redirected, more)
                (λ h. absurd (
                  after_redirect-not_ok request response.status method body
                    (redirect_url net response url) a h))
        ]
      ]

  after_send-IsFinal :
      (hop : ℕ) (request : Sent) (method : Text) (body : PreparedBody) (url : Url)
      (response : Option Response) (a : A)
      → result_of
          (after_send net host_validator http_data ctx finish hop request method body url response)
        ≡ some (ok a)
      → IsFinal a
  unfolding after_send result_of
  after_send-IsFinal hop request method body url none a h = cc
  after_send-IsFinal hop request method body url (some response) a h =
      after_response-IsFinal hop request method body url response a h

  hop_step-IsFinal :
      (hop : ℕ) (sent : List Sent) (method : Text) (body : PreparedBody) (url : Url) (a : A)
      → result_of (hop_step net host_validator http_data ctx finish hop sent method body url)
        ≡ some (ok a)
      → IsFinal a
  unfolding hop_step result_of
  hop_step-IsFinal hop sent method body url a =
      elim (Result-cases (prepare_hop net host_validator http_data ctx sent method url body)) [
        | inr (e, refused) ↦ rw (refused, hop_step) (λ h. cc)
        | inl (request, prepared) ↦
            rw (prepared, hop_step)
              (after_send-IsFinal hop request method body url (net.send sent request) a)
      ]

  pub follow-IsFinal :
      (rounds hop : ℕ) (sent : List Sent) (method : Text) (body : PreparedBody) (url : Url) (a : A)
      → (follow net host_validator http_data ctx finish rounds hop sent method body url).1 ≡ ok a
      → IsFinal a
  unfolding follow result_of
  follow-IsFinal zero hop sent method body url a = λ h. cc
  follow-IsFinal (suc rounds) hop sent method body url a =
      elim (Hop-cases (hop_step net host_validator http_data ctx finish hop sent method body url)) [
        | inl (none, result, e) ↦
            rw (e, follow)
              (λ h.
                hop_step-IsFinal hop sent method body url a (ap result_of e ∙ ap (λ r. some r) h))
        | inl (some request, result, e) ↦
            rw (e, follow)
              (λ h.
                hop_step-IsFinal hop sent method body url a (ap result_of e ∙ ap (λ r. some r) h))
        | inr (request, m, b, u, e) ↦
            rw (e, follow) (follow-IsFinal rounds (hop + 1) (sent ++ request ∷ []) m b u a)
      ]

module _ (net : Network) (host_validator : HostValidator) (http_data : PreparedHttpData)
    (ctx : ExecutionContext) where
  -- A body that is returned is within the limit of the transport settings.
  pub execute_http_once-le :
      (before : List Sent) (raw : RawExecutionResult)
      → (execute_http_once_with_host_validator net host_validator http_data ctx before).1 ≡ ok raw
      → length raw.body ≤ ctx.transport.max_response_bytes
  unfolding execute_http_once_with_host_validator execute_hops
  execute_http_once-le before raw h =
      let (url, response, _, made) =
        follow-IsFinal net host_validator http_data ctx (raw_result net ctx)
          (suc ctx.transport.max_redirect_hops) 0 before http_data.method http_data.body
          http_data.url raw h in
      raw_result-le net ctx url response raw made

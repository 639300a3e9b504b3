-- ===== src/Http/Redirects.antt =====
-- The loop over redirects: execute_http_once_with_host_validator of
-- crates/earl-protocol-http/src/executor.rs. The loop gives the requests that it sent, first to last,
-- beside its result; what it does with the last response is a parameter, since the streaming
-- executor has the same loop.
use earl.Prelude.{
  ℕ, zero, suc, ◌+◌, Bool, ◌&&◌, ◌||◌, Option, none, some, List, [], ◌∷◌, ◌++◌, ltb, leb, ◌==◌,
  length, within, if◌then◌else◌, Result, ok, err, ◌>>=◌, or_fail,
}
use earl.Text.{Text, codes, text_eq}
use earl.Allowlist.{Url}
use earl.Http.{
  PreparedBody, PreparedHttpData, RawExecutionResult, ExecutionContext, HttpError, Sent, Response,
  Network, HostValidator, send_failed, maximum_redirect_hops, missing_location, location_not_utf8,
  invalid_location, read_failed, body_too_large, redirect_handling_failed,
}
use earl.Http.Client.{prepare_hop}

-- `StatusCode::is_redirection`.
abbrev pub is_redirection : ℕ → Bool
is_redirection status = within 300 399 status

abbrev pub to_get : ℕ → Text → Bool
to_get status method =
    status == 303 || (status == 301 || status == 302) && text_eq method (codes "POST")

unfoldable pub next_method : ℕ → Text → Text
unfolding text_eq
next_method status method = if to_get status method then codes "GET" else method

unfoldable pub next_body : ℕ → Text → PreparedBody → PreparedBody
unfolding text_eq
next_body status method body = if to_get status method then PreparedBody.empty else body

-- The loop of read_response_body_limited, with its variable `out`.
unfoldable pub read_chunks : ℕ → List (Option (List ℕ)) → List ℕ → Result HttpError (List ℕ)
read_chunks limit [] out = ok out
read_chunks limit (none ∷ chunks) out = err read_failed
read_chunks limit (some chunk ∷ chunks) out =
    let rest = read_chunks limit chunks (out ++ chunk) in
    if ltb limit (length out + length chunk) then err (body_too_large limit) else rest

unfoldable pub read_response_body_limited : Response → ℕ → Result HttpError (List ℕ)
unfolding read_chunks
read_response_body_limited response limit = read_chunks limit response.chunks []

-- `.and_then(|v| v.to_str().ok())`.
abbrev pub flatten {ℓ} : {A : Type ℓ} → Option (Option A) → Option A
flatten none = none
flatten (some o) = o

-- How a round ends: with a result, after a request or before it, or in another round.
pub data Hop (A : Type 0) : Type 0 where
  stop : Option Sent → Result HttpError A → Hop A
  again : Sent → (method : Text) → PreparedBody → Url → Hop A

module _ (net : Network) where
  unfoldable pub redirect_url : Response → Url → Result HttpError Url
  redirect_url response url = do
    header ← or_fail response.location missing_location
    location ← or_fail header location_not_utf8
    or_fail (net.join url location) (invalid_location location)

  module _ (host_validator : HostValidator) (http_data : PreparedHttpData) (ctx : ExecutionContext)
      {A : Type 0} (finish : Url → Response → Result HttpError A) where
    -- Another request after a redirect, or the end with an invalid one.
    unfoldable pub after_redirect : Sent → ℕ → Text → PreparedBody → Result HttpError Url → Hop A
    unfolding next_method next_body
    after_redirect request status method body (err e) = stop (some request) (err e)
    after_redirect request status method body (ok new_url) =
        again request (next_method status method) (next_body status method body) new_url

    unfoldable pub after_response : ℕ → Sent → Text → PreparedBody → Url → Response → Hop A
    unfolding after_redirect redirect_url
    after_response hop request method body url response =
        if is_redirection response.status && ctx.transport.follow_redirects
        then (if leb ctx.transport.max_redirect_hops hop
            then stop (some request) (err (maximum_redirect_hops ctx.transport.max_redirect_hops))
            else after_redirect request response.status method body (redirect_url response url))
        else stop (some request) (finish url response)

    unfoldable pub after_send : ℕ → Sent → Text → PreparedBody → Url → Option Response → Hop A
    unfolding after_response
    after_send hop request method body url none = stop (some request) (err (send_failed url))
    after_send hop request method body url (some response) =
        after_response hop request method body url response

    -- The body of the loop.
    unfoldable pub hop_step : ℕ → List Sent → Text → PreparedBody → Url → Hop A
    unfolding prepare_hop after_send
    hop_step hop sent method body url =
        elim (prepare_hop net host_validator http_data ctx sent method url body) [
          | err e ↦ stop none (err e)
          | ok request ↦ after_send hop request method body url (net.send sent request)
        ]

    -- The loop from `hop` on, for the rounds that are left.
    unfoldable pub follow :
        ℕ → ℕ → List Sent → Text → PreparedBody → Url → List Sent × Result HttpError A
    unfolding hop_step
    follow zero hop sent method body url = (sent, err redirect_handling_failed)
    follow (suc rounds) hop sent method body url = elim (hop_step hop sent method body url) [
      | stop none result ↦ (sent, result)
      | stop (some request) result ↦ (sent ++ request ∷ [], result)
      | again request new_method new_body new_url ↦
          follow rounds (hop + 1) (sent ++ request ∷ []) new_method new_body new_url
    ]

    -- `for hop in 0..=max_redirect_hops`, behind the requests of earlier attempts.
    unfoldable pub execute_hops : List Sent → List Sent × Result HttpError A
    unfolding follow
    execute_hops before =
        follow (suc ctx.transport.max_redirect_hops) 0 before http_data.method http_data.body
          http_data.url

  unfoldable pub raw_result :
      ExecutionContext → Url → Response → Result HttpError RawExecutionResult
  unfolding read_response_body_limited
  raw_result ctx url response = do
    body_bytes ← read_response_body_limited response ctx.transport.max_response_bytes
    ok (record {
      status = response.status;
      url = net.url_text url;
      body = body_bytes;
      content_type = flatten response.content_type;
    })

  unfoldable pub execute_http_once_with_host_validator :
      HostValidator
      → PreparedHttpData
      → ExecutionContext
      → List Sent
      → List Sent × Result HttpError RawExecutionResult
  unfolding execute_hops raw_result
  execute_http_once_with_host_validator host_validator http_data ctx before =
      execute_hops host_validator http_data ctx (raw_result ctx) before

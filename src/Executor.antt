-- ===== src/Executor.antt =====
-- The execution of a prepared request with its retries: src/protocol/executor.rs. The loop gives the
-- HTTP requests that were sent and the waits between attempts, in milliseconds, beside its result.
pub mod Retries
pub mod Guarded
mod Tests
use earl.Prelude.{
  ℕ, zero, suc, ◌+◌, ◌-◌, ◌*◌, ◌%◌, ◌^◌, Bool, true, false, ◌&&◌, Option, none, some, List, [], ◌∷◌,
  ◌++◌, ltb, leb, ◌==◌, any, if◌then◌else◌, Result, ok, err, ◌>>=◌, or_fail, map_err,
}
use earl.Text.{Text}
use earl.Json.{Value}
use earl.Ssrf.{IpAddr}
use earl.Ssrf.Dns.{resolve_and_validate_host}
use earl.Allowlist.{Url, AllowRule}
use earl.Transport.{ResolvedTransport}
use earl.Schema.{ResultTemplate, ResultExtract}
use earl.Decode.{DecodedBody, DecodeError, Readers, decode_response}
use earl.Http.{
  PreparedHttpData, RawExecutionResult, ExecutionContext, HttpError, missing_host, host_refused,
  Sent, Network, HostValidator,
}
use earl.Http.Redirects.{execute_http_once_with_host_validator}

-- The payload of the protocols other than HTTP and GraphQL is left to their executors.
pub data PreparedProtocolData : Type 0 where
  http graphql : PreparedHttpData → PreparedProtocolData
  grpc bash sql browser : PreparedProtocolData

pub record PreparedRequest : Type 0 where
  pub allow_rules : List AllowRule
  pub allow_private_ips : Bool
  pub transport : ResolvedTransport
  pub result_template : ResultTemplate
  pub protocol_data : PreparedProtocolData

pub data ExecuteError : Type 0 where
  http_failed : HttpError → ExecuteError
  executor_failed : Text → ExecuteError
  failed_decoding : DecodeError → ExecuteError
  failed_extraction : ExecuteError
  no_details : ExecuteError

pub record ExecutionResult : Type 0 where
  pub status : ℕ
  pub url : Text
  pub result : Value
  pub decoded : Value

-- What the other crates give: the connection, the resolver after the requests sent so far, the
-- executors of the other protocols by the number of the attempt, and extract_result.
pub record Outside : Type 0 where
  pub network : Network
  pub resolver : List Sent → Option (Text → Option (List IpAddr))
  pub execute : PreparedProtocolData → ℕ → Result Text RawExecutionResult
  pub readers : Readers
  pub extract_result : Option ResultExtract → DecodedBody → Option Value
  pub to_json_value : DecodedBody → Value

-- `Duration::saturating_mul`; a duration is below 2 ^ 64 seconds.
abbrev pub duration_limit : ℕ
duration_limit = 2 ^ 64 * 1000

unfoldable pub backoff : ℕ → ℕ → ℕ
backoff base attempt =
    let factor = (if ltb attempt 1 then 1 else attempt) % 2 ^ 32 in
    if ltb (base * factor) duration_limit then base * factor else duration_limit - 1

abbrev pub to_context : PreparedRequest → ExecutionContext
to_context prepared = record { allow_rules = prepared.allow_rules; transport = prepared.transport }

module _ (outside : Outside) where
  -- The closure of execute_prepared_request.
  unfoldable pub host_validator : Bool → HostValidator
  unfolding resolve_and_validate_host
  host_validator allow_private_ips sent url = do
    host ← or_fail url.host_str missing_host
    map_err host_refused (resolve_and_validate_host (outside.resolver sent) host allow_private_ips)

  -- One attempt, by protocol.
  unfoldable pub attempt_once :
      PreparedProtocolData
      → PreparedRequest
      → HostValidator
      → ℕ
      → List Sent
      → List Sent × Result ExecuteError RawExecutionResult
  unfolding execute_http_once_with_host_validator
  attempt_once (PreparedProtocolData.http http_data) prepared validator attempt sent =
      let (sent', outcome) =
        execute_http_once_with_host_validator outside.network validator http_data
          (to_context prepared) sent in
      (sent', map_err http_failed outcome)
  attempt_once (PreparedProtocolData.graphql http_data) prepared validator attempt sent =
      let (sent', outcome) =
        execute_http_once_with_host_validator outside.network validator http_data
          (to_context prepared) sent in
      (sent', map_err http_failed outcome)
  attempt_once other prepared validator attempt sent =
      (sent, map_err executor_failed (outside.execute other attempt))

  unfoldable pub finish_raw :
      ResultTemplate → RawExecutionResult → Result ExecuteError ExecutionResult
  unfolding decode_response
  finish_raw template raw = do
    decoded_body ←
        map_err failed_decoding
          (decode_response outside.readers template.decode raw.content_type raw.body)
    extracted ← or_fail (outside.extract_result template.extract decoded_body) failed_extraction
    ok (record {
      status = raw.status;
      url = raw.url;
      result = extracted;
      decoded = outside.to_json_value decoded_body;
    })

abbrev pub or_no_details : Option ExecuteError → ExecuteError
or_no_details none = no_details
or_no_details (some e) = e

-- What a run of the loop leaves: the requests sent, the waits, the result.
pub record Run : Type 0 where
  pub sent : List Sent
  pub sleeps : List ℕ
  pub result : Result ExecuteError ExecutionResult

-- What an attempt calls for.
pub data Verdict : Type 0 where
  retry : Option ExecuteError → Verdict
  done : Result ExecuteError ExecutionResult → Verdict

module _ (attempts : ℕ) (retry_backoff : ℕ) (retry_on_status : List ℕ)
    (run : ℕ → List Sent → List Sent × Result ExecuteError RawExecutionResult)
    (finish : RawExecutionResult → Result ExecuteError ExecutionResult) where
  -- The `match` on the outcome; a retry after a status keeps the last error.
  unfoldable pub judge : ℕ → Option ExecuteError → Result ExecuteError RawExecutionResult → Verdict
  unfolding any
  judge attempt last_err (ok raw) =
      if any (λ s. s == raw.status) retry_on_status && ltb attempt attempts
      then retry last_err
      else done (finish raw)
  judge attempt last_err (err e) = if leb attempts attempt then done (err e) else retry (some e)

  -- The loop from `attempt` on, for the rounds that are left.
  unfoldable pub execute_from : ℕ → ℕ → Option ExecuteError → List Sent → List ℕ → Run
  unfolding judge backoff
  execute_from zero attempt last_err sent sleeps = record {
    sent = sent;
    sleeps = sleeps;
    result = err (or_no_details last_err);
  }
  execute_from (suc rounds) attempt last_err sent sleeps =
      let (sent', outcome) = run attempt sent in
      elim (judge attempt last_err outcome) [
        | done result ↦ record { sent = sent'; sleeps = sleeps; result = result }
        | retry last_err' ↦
            execute_from rounds (attempt + 1) last_err' sent'
              (sleeps ++ backoff retry_backoff attempt ∷ [])
      ]

  -- `for attempt in 1..=attempts`.
  unfoldable pub execute_attempts : Run
  unfolding execute_from
  execute_attempts = execute_from attempts 1 none [] []

-- `retry_max_attempts.max(1)`.
abbrev pub attempts_of : ResolvedTransport → ℕ
attempts_of transport =
    if ltb transport.retry_max_attempts 1 then 1 else transport.retry_max_attempts

module _ (outside : Outside) where
  unfoldable pub execute_prepared_request_with_host_validator :
      PreparedRequest → HostValidator → Run
  unfolding execute_attempts attempt_once finish_raw
  execute_prepared_request_with_host_validator prepared validator =
      execute_attempts (attempts_of prepared.transport) prepared.transport.retry_backoff
        prepared.transport.retry_on_status
        (attempt_once outside prepared.protocol_data prepared validator)
        (finish_raw outside prepared.result_template)

  unfoldable pub execute_prepared_request : PreparedRequest → Run
  unfolding execute_prepared_request_with_host_validator host_validator
  execute_prepared_request prepared =
      execute_prepared_request_with_host_validator prepared
        (host_validator outside prepared.allow_private_ips)

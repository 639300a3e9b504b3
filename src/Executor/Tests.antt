-- ===== src/Executor/Tests.antt =====
-- An execution of src/protocol/executor.rs that is tried again, and instances of the theorems.
use earl.Prelude.{
  ℕ, ◌*◌, ◌+◌, ◌≤◌, true, false, ◌≡◌, refl, none, some, List, [], ◌∷◌, length, All, ltb,
  if◌then◌else◌, Result, ok, err, arith,
}
use earl.Text.{codes}
use earl.Json.{Value}
use earl.Ssrf.{v4}
use earl.Allowlist.{Url}
use earl.Schema.{default_result}
use earl.Transport.{ResolvedTransport}
use earl.Http.{PreparedBody, RawExecutionResult, Network, Response, Sent}
use earl.Executor.{
  PreparedProtocolData, PreparedRequest, ExecuteError, ExecutionResult, Outside, attempts_of,
  execute_attempts, execute_prepared_request,
}
use earl.Executor.Retries.{EndsAt, execute_attempts-EndsAt}
use earl.Executor.Guarded.{IsGuardedRequest, execute_prepared_request-AllGuarded}

abbrev url : Url
url = record {
  scheme = codes "https";
  host_str = some (codes "api.example.com");
  port_or_known_default = some 443;
  path = codes "/";
}

-- The server is unavailable for the first two requests.
abbrev answer : ℕ → Response
answer before = record {
  status = if ltb before 2 then 503 else 200;
  location = none;
  content_type = none;
  chunks = some (codes "ok") ∷ [];
}

abbrev network : Network
network = record {
  join = λ from location. none;
  url_text = λ u. u.path;
  valid_header_name = λ name. true;
  valid_header_value = λ value. true;
  valid_mime = λ mime. true;
  valid_proxy = λ proxy. true;
  client_builds = λ client. true;
  send = λ before request. some (answer (length before));
}

abbrev outside : Outside
outside = record {
  network = network;
  resolver = λ before. some (λ host. some (v4 (record { a = 8; b = 8; c = 8; d = 8 }) ∷ []));
  execute = λ protocol attempt. err (codes "no executor");
  readers = record { from_slice = λ bytes. none; from_utf8_lossy = λ bytes. bytes };
  extract_result = λ extract body. some Value.null;
  to_json_value = λ body. Value.null;
}

abbrev transport : ℕ → ResolvedTransport
transport attempts = record {
  timeout = 1000;
  follow_redirects = true;
  max_redirect_hops = 5;
  retry_max_attempts = attempts;
  retry_backoff = 250;
  retry_on_status = 503 ∷ [];
  compression = true;
  tls_min_version = none;
  proxy_url = none;
  max_response_bytes = 1024;
}

abbrev prepared : ℕ → PreparedRequest
prepared attempts = record {
  allow_rules = [];
  allow_private_ips = false;
  transport = transport attempts;
  result_template = default_result;
  protocol_data = PreparedProtocolData.http (record {
    method = codes "GET";
    url = url;
    query = [];
    headers = [];
    cookies = [];
    body = PreparedBody.empty;
  });
}

abbrev result : ℕ → ExecutionResult
result status = record {
  status = status;
  url = codes "/";
  result = Value.null;
  decoded = Value.null;
}

-- The third attempt succeeds; with two attempts the status of the second one is the result.
retry_tests :
    ((execute_prepared_request outside (prepared 4)).result ≡ ok (result 200))
    × ((execute_prepared_request outside (prepared 4)).sleeps ≡ 250 ∷ 500 ∷ [])
    × ((execute_prepared_request outside (prepared 2)).result ≡ ok (result 503))
unfolding execute_prepared_request
retry_tests = (refl, refl, refl)

execute_prepared_request-AllGuarded_example :
    All (IsGuardedRequest (prepared 4)) (execute_prepared_request outside (prepared 4)).sent
    × (length (execute_prepared_request outside (prepared 4)).sent
        ≤ attempts_of (transport 4) * (5 + 1))
execute_prepared_request-AllGuarded_example =
    execute_prepared_request-AllGuarded outside (prepared 4)

-- The executor of bash fails at the first attempt.
abbrev run : ℕ → List Sent → List Sent × Result ExecuteError RawExecutionResult
run attempt sent = (
  sent,
  if ltb attempt 2
      then err ExecuteError.no_details
      else ok (record { status = 200; url = codes "/"; body = []; content_type = none }),
)

abbrev finish : RawExecutionResult → Result ExecuteError ExecutionResult
finish raw = ok (result raw.status)

execute_attempts-EndsAt_example :
    (k : ℕ) × EndsAt 3 250 [] run finish k 3 1 [] [] (execute_attempts 3 250 [] run finish)
execute_attempts-EndsAt_example =
    execute_attempts-EndsAt 3 250 [] run finish (omega arith) (omega arith)

-- ===== src/Http/Tests.antt =====
-- A redirect followed by the executor of crates/earl-protocol-http/src/executor.rs, and an instance
-- of the theorem on its bodies.
use earl.Prelude.{ℕ, ◌≤◌, true, ◌≡◌, refl, none, some, [], ◌∷◌, length, if◌then◌else◌, ok, err}
use earl.Text.{Text, codes, text_eq}
use earl.Ssrf.{IpAddr, v4}
use earl.Allowlist.{Url}
use earl.Transport.{ResolvedTransport}
use earl.Http.{
  PreparedBody, PreparedHttpData, RawExecutionResult, ExecutionContext, Network, HostValidator,
  Response, body_too_large, maximum_redirect_hops,
}
use earl.Http.Redirects.{execute_http_once_with_host_validator}
use earl.Http.Body.{execute_http_once-le}

abbrev url : Text → Url
url path = record {
  scheme = codes "https";
  host_str = some (codes "api.example.com");
  port_or_known_default = some 443;
  path = path;
}

abbrev address : IpAddr
address = v4 (record { a = 8; b = 8; c = 8; d = 8 })

-- The server answers a POST by a redirect to /done, and the GET there by two chunks.
abbrev answer : Text → Response
answer method =
    if text_eq method (codes "POST")
    then record {
      status = 302;
      location = some (some (codes "/done"));
      content_type = none;
      chunks = [];
    }
    else record {
      status = 200;
      location = none;
      content_type = some (some (codes "text/plain"));
      chunks = some (codes "ab") ∷ some (codes "c") ∷ [];
    }

abbrev network : Network
network = record {
  join = λ from location. some (url location);
  url_text = λ u. u.path;
  valid_header_name = λ name. true;
  valid_header_value = λ value. true;
  valid_mime = λ mime. true;
  valid_proxy = λ proxy. true;
  client_builds = λ client. true;
  send = λ before request. some (answer request.method);
}

abbrev validator : HostValidator
validator = λ before u. ok (address ∷ [])

abbrev transport : ℕ → ℕ → ResolvedTransport
transport hops limit = record {
  timeout = 1000;
  follow_redirects = true;
  max_redirect_hops = hops;
  retry_max_attempts = 1;
  retry_backoff = 1;
  retry_on_status = [];
  compression = true;
  tls_min_version = none;
  proxy_url = none;
  max_response_bytes = limit;
}

abbrev ctx : ℕ → ℕ → ExecutionContext
ctx hops limit = record { allow_rules = []; transport = transport hops limit }

abbrev post : PreparedHttpData
post = record {
  method = codes "POST";
  url = url (codes "/start");
  query = [];
  headers = [];
  cookies = [];
  body = PreparedBody.raw_bytes (codes "x") none;
}

abbrev done : RawExecutionResult
done = record {
  status = 200;
  url = codes "/done";
  body = codes "abc";
  content_type = some (codes "text/plain");
}

redirect_tests :
    ((execute_http_once_with_host_validator network validator post (ctx 1 3) []).1 ≡ ok done)
    × ((execute_http_once_with_host_validator network validator post (ctx 1 2) []).1
        ≡ err (body_too_large 2))
    × ((execute_http_once_with_host_validator network validator post (ctx 0 3) []).1
        ≡ err (maximum_redirect_hops 0))
unfolding execute_http_once_with_host_validator text_eq
redirect_tests = (refl, refl, refl)

execute_http_once-le_example : length done.body ≤ 3
execute_http_once-le_example =
    execute_http_once-le network validator post (ctx 1 3) [] done redirect_tests.0

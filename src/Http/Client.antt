-- ===== src/Http/Client.antt =====
-- The client and the request of one hop: build_http_client, build_request and build_multipart of
-- crates/earl-protocol-http/src/executor.rs.
use earl.Prelude.{
  ℕ, not, ◌&&◌, List, [], ◌∷◌, ◌++◌, is_empty, some_and, Result, ok, ◌>>=◌, ◌>>◌, bail_if, each,
  map_err, or_fail,
}
use earl.Text.{Text, codes}
use earl.Ssrf.{IpAddr}
use earl.Allowlist.{Url, ensure_url_allowed}
use earl.Transport.{ResolvedTransport}
use earl.Http.{
  PreparedMultipartPart, PreparedBody, multipart, PreparedHttpData, ExecutionContext, HttpError,
  HttpClient, Sent, Network, HostValidator, not_allowed, no_resolved_addresses, invalid_proxy,
  missing_host, missing_port, client_failed, invalid_header_name, invalid_header_value,
  invalid_cookies, invalid_mime,
}

-- `SocketAddr::new` on each address.
unfoldable pub socket_addrs : List IpAddr → ℕ → List (IpAddr × ℕ)
socket_addrs [] port = []
socket_addrs (ip ∷ ips) port = (ip, port) ∷ socket_addrs ips port

-- The settings of the builder.
unfoldable pub client_of : ResolvedTransport → Text → ℕ → List IpAddr → HttpClient
unfolding socket_addrs
client_of transport host port resolved_ips = record {
  timeout = transport.timeout;
  compression = transport.compression;
  min_tls_version = transport.tls_min_version;
  proxy = transport.proxy_url;
  host = host;
  addresses = socket_addrs resolved_ips port;
}

module _ (net : Network) where
  unfoldable pub build_http_client :
      ResolvedTransport → Url → List IpAddr → Result HttpError HttpClient
  unfolding client_of
  build_http_client transport url resolved_ips = do
    some_address ← bail_if (is_empty resolved_ips) no_resolved_addresses
    proxied ← bail_if (some_and (λ p. not (net.valid_proxy p)) transport.proxy_url) invalid_proxy
    host ← or_fail url.host_str missing_host
    port ← or_fail url.port_or_known_default missing_port
    built ←
        bail_if (not (net.client_builds (client_of transport host port resolved_ips))) client_failed
    ok (client_of transport host port resolved_ips)

  -- One round of the loop over the headers.
  unfoldable pub check_header : Text × Text → Result HttpError (Unit {0})
  check_header (name, value) =
      bail_if (not (net.valid_header_name name)) (invalid_header_name name)
      >> bail_if (not (net.valid_header_value value)) (invalid_header_value name)

  unfoldable pub check_part : PreparedMultipartPart → Result HttpError (Unit {0})
  check_part part =
      bail_if (some_and (λ ct. not (net.valid_mime ct)) part.content_type) invalid_mime

  unfoldable pub check_body : PreparedBody → Result HttpError (Unit {0})
  unfolding each check_part
  check_body (multipart parts) = each check_part parts
  check_body _ = ok tt

  -- `{k}={v}`, joined by "; ".
  unfoldable pub cookie_value : List (Text × Text) → Text
  cookie_value [] = []
  cookie_value ((k, v) ∷ []) = k ++ codes "=" ++ v
  cookie_value ((k, v) ∷ next ∷ more) =
      k ++ codes "=" ++ v ++ codes "; " ++ cookie_value (next ∷ more)

  -- The checks of build_request, in its order.
  unfoldable pub check_request : PreparedHttpData → PreparedBody → Result HttpError (Unit {0})
  unfolding each check_header cookie_value check_body
  check_request http_data body =
      each check_header http_data.headers
      >> (bail_if
            (not (is_empty http_data.cookies)
              && not (net.valid_header_value (cookie_value http_data.cookies)))
            invalid_cookies
          >> check_body body)

  unfoldable pub build_request :
      HttpClient → PreparedHttpData → Text → Url → PreparedBody → Result HttpError Sent
  unfolding check_request
  build_request client http_data method url body =
      check_request http_data body
      >> ok (record {
        client = client;
        method = method;
        url = url;
        headers = http_data.headers;
        cookies = http_data.cookies;
        query = http_data.query;
        body = body;
      })

  -- The first half of a hop: the allowlist, the host, the client and the request.
  unfoldable pub prepare_hop :
      HostValidator
      → PreparedHttpData
      → ExecutionContext
      → List Sent
      → Text
      → Url
      → PreparedBody
      → Result HttpError Sent
  unfolding ensure_url_allowed build_http_client build_request
  prepare_hop host_validator http_data ctx sent method url body = do
    allowed ← map_err not_allowed (ensure_url_allowed url ctx.allow_rules)
    resolved_ips ← host_validator sent url
    client ← build_http_client ctx.transport url resolved_ips
    build_request client http_data method url body

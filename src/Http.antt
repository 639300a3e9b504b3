-- ===== src/Http.antt =====
-- Requests and the loop over redirects: crates/earl-protocol-http/src/executor.rs, with the prepared
-- data of crates/earl-core/src/lib.rs and crates/earl-protocol-http/src/lib.rs. The connection is the
-- record `Network`; what the outside answers may depend on all the requests that were sent before.
pub mod Client
pub mod Redirects
pub mod Body
pub mod Guarded
mod Tests
use earl.Prelude.{
  ℕ, zero, suc, ◌+◌, ◌/◌, Bool, true, false, ◌&&◌, ◌||◌, Option, none, some, List, [], ◌∷◌, ◌++◌,
  ltb, leb, ◌==◌, length, is_empty, if◌then◌else◌, Result, ok, err, ◌>>=◌, ◌>>◌, bail_if, or_fail,
  map_err,
}
use earl.Text.{Text, codes, text_eq}
use earl.Json.{Value}
use earl.Ssrf.{IpAddr}
use earl.Ssrf.Dns.{DnsError}
use earl.Allowlist.{Url, AllowRule, AllowlistError, ensure_url_allowed}
use earl.Transport.{ResolvedTransport, TlsVersion}

pub record PreparedMultipartPart : Type 0 where
  pub name : Text
  pub bytes : List ℕ
  pub content_type : Option Text
  pub filename : Option Text

pub data PreparedBody : Type 0 where
  empty : PreparedBody
  json : Value → PreparedBody
  form : List (Text × Text) → PreparedBody
  multipart : List PreparedMultipartPart → PreparedBody
  raw_bytes : (content : List ℕ) (content_type : Option Text) → PreparedBody

pub record PreparedHttpData : Type 0 where
  pub method : Text
  pub url : Url
  pub query : List (Text × Text)
  pub headers : List (Text × Text)
  pub cookies : List (Text × Text)
  pub body : PreparedBody

pub record RawExecutionResult : Type 0 where
  pub status : ℕ
  pub url : Text
  pub body : List ℕ
  pub content_type : Option Text

-- The parts of `ExecutionContext` that the executor reads.
pub record ExecutionContext : Type 0 where
  pub allow_rules : List AllowRule
  pub transport : ResolvedTransport

pub data HttpError : Type 0 where
  not_allowed : AllowlistError → HttpError
  missing_host missing_port invalid_proxy client_failed : HttpError
  host_refused : DnsError → HttpError
  no_resolved_addresses : HttpError
  invalid_header_name invalid_header_value : (name : Text) → HttpError
  invalid_cookies invalid_mime : HttpError
  send_failed : (url : Url) → HttpError
  maximum_redirect_hops : (hops : ℕ) → HttpError
  missing_location location_not_utf8 : HttpError
  invalid_location : (location : Text) → HttpError
  read_failed : HttpError
  body_too_large : (limit : ℕ) → HttpError
  redirect_handling_failed : HttpError

-- What the builder of the client is given: without a proxy, a request for `host` is sent to one of
-- `addresses`; with one, every request is sent to the proxy.
pub record HttpClient : Type 0 where
  pub timeout : ℕ
  pub compression : Bool
  pub min_tls_version : Option TlsVersion
  pub proxy : Option Text
  pub host : Text
  pub addresses : List (IpAddr × ℕ)

-- A request as it goes out, with its client.
pub record Sent : Type 0 where
  pub client : HttpClient
  pub method : Text
  pub url : Url
  pub headers : List (Text × Text)
  pub cookies : List (Text × Text)
  pub query : List (Text × Text)
  pub body : PreparedBody

-- The header Location and Content-Type are `some none` where they are not UTF-8; a chunk is `none`
-- where reading it fails.
pub record Response : Type 0 where
  pub status : ℕ
  pub location : Option (Option Text)
  pub content_type : Option (Option Text)
  pub chunks : List (Option (List ℕ))

-- What the crates url, http and reqwest and the remote servers give; requests sent before come first
-- to last.
pub record Network : Type 0 where
  pub join : Url → Text → Option Url
  pub url_text : Url → Text
  pub valid_header_name : Text → Bool
  pub valid_header_value : Text → Bool
  pub valid_mime : Text → Bool
  pub valid_proxy : Text → Bool
  pub client_builds : HttpClient → Bool
  pub send : List Sent → Sent → Option Response

-- `host_validator`, with the requests sent before.
abbrev pub HostValidator : Type 0
HostValidator = List Sent → Url → Result HttpError (List IpAddr)

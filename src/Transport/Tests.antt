-- ===== src/Transport/Tests.antt =====
-- Runs of src/protocol/transport.rs, and instances of the theorems.
use earl.Prelude.{◌≡◌, refl, ◌↔◌, Option, none, some, [], ◌∷◌, true, ok, err}
use earl.Text.{Text, codes}
use earl.Text.Keys.{Map}
use earl.Schema.{TransportTemplate}
use earl.Validator.Parts.{validate_transport}
use earl.Transport.{ProxyProfile, TlsVersion, TransportError, ResolvedTransport, resolve_transport}
use earl.Transport.Bounds.{IsBounded, resolve_transport-IsBounded}
use earl.Transport.Accepted.{HasProxy, validate_transport-resolve_iff}

abbrev settings : Text → Text → Option TransportTemplate
settings version profile = some (record {
  timeout_ms = some 500;
  max_response_bytes = some 10;
  redirects = none;
  retry = some (record { max_attempts = 0; backoff_ms = 0; retry_on_status = 503 ∷ [] });
  compression = none;
  tls = some (record { min_version = some version });
  proxy_profile = some profile;
})

abbrev profiles : Map ProxyProfile
profiles = (codes "office", record { url = codes " http://proxy:3128 " }) ∷ []

abbrev resolved : ResolvedTransport
resolved = record {
  timeout = 500;
  follow_redirects = true;
  max_redirect_hops = 5;
  retry_max_attempts = 1;
  retry_backoff = 1;
  retry_on_status = 503 ∷ [];
  compression = true;
  tls_min_version = some TlsVersion.tls_1_2;
  proxy_url = some (codes "http://proxy:3128");
  max_response_bytes = 1024;
}

resolve_test : resolve_transport (settings (codes "1.2") (codes "office")) profiles ≡ ok resolved
unfolding resolve_transport
resolve_test = refl

refusal_tests :
    (resolve_transport (settings (codes "2.0") (codes "office")) profiles
      ≡ err (TransportError.unsupported_min_version (codes "2.0")))
    × (resolve_transport (settings (codes " ") (codes "home")) profiles
        ≡ err (TransportError.unknown_proxy_profile (codes "home")))
unfolding resolve_transport
refusal_tests = (refl, refl)

accepted : validate_transport (codes "search") (settings (codes "1.2") (codes "office")) ≡ ok tt
unfolding validate_transport
accepted = refl

resolve_transport-IsBounded_example : IsBounded resolved
resolve_transport-IsBounded_example =
    resolve_transport-IsBounded (settings (codes "1.2") (codes "office")) profiles resolved
      resolve_test

validate_transport-resolve_iff_example :
    ((t : ResolvedTransport) × (resolve_transport (settings (codes "1.2") (codes "office")) profiles
        ≡ ok t))
    ↔ HasProxy (settings (codes "1.2") (codes "office")) profiles
validate_transport-resolve_iff_example =
    validate_transport-resolve_iff (codes "search") (settings (codes "1.2") (codes "office"))
      profiles accepted

-- ===== src/Transport/Accepted.antt =====
-- Validation and resolution of transport settings together: `validate_transport` of
-- src/template/validator.rs and src/protocol/transport.rs.
use earl.Prelude.{
  is_empty, any, true, false, bind-eq_ok, bind-ok, ◌≡◌, refl, ◌↔◌, inl, inr, Bool-cases, Option,
  none, some, Option-cases, arith, ok,
}
use earl.Text.{Text, codes, text_eq, trim}
use earl.Text.Keys.{Map, lookup}
use earl.Schema.{TransportTemplate}
use earl.Validator.Parts.{tls_versions, validate_transport, bad_min_version, includes}
use earl.Transport.{
  ProxyProfile, ResolvedTransport, TlsVersion, resolve_transport, trimmed_name,
  parse_tls_min_version, resolve_proxy_url, proxy_url_of, raw_proxy_profile, raw_min_version,
  version_of,
}

-- The profile that the settings name, if any, is configured with a URL that is not blank.
abbrev pub HasProxy : Option TransportTemplate → Map ProxyProfile → Type 0
HasProxy input proxy_profiles =
    (name : Text)
    → trimmed_name (raw_proxy_profile input) ≡ some name
    → (profile : ProxyProfile) × (lookup name proxy_profiles ≡ some profile)
      × (is_empty (trim profile.url) ≡ false)

version_of_known :
    (raw : Text)
    → includes tls_versions raw ≡ true
    → (v : Option TlsVersion) × (version_of raw ≡ ok v)
unfolding includes version_of any
version_of_known raw h = elim (Bool-cases (text_eq raw (codes "1.0"))) [
  | inl e0 ↦ (some TlsVersion.tls_1_0, rw (e0, version_of) refl)
  | inr n0 ↦ elim (Bool-cases (text_eq raw (codes "1.1"))) [
    | inl e1 ↦ (some TlsVersion.tls_1_1, rw (n0, e1, version_of) refl)
    | inr n1 ↦ elim (Bool-cases (text_eq raw (codes "1.2"))) [
      | inl e2 ↦ (some TlsVersion.tls_1_2, rw (n0, n1, e2, version_of) refl)
      | inr n2 ↦ (some TlsVersion.tls_1_3, ground arith)
    ]
  ]
]

accepted-known :
    (command_name : Text) (t : TransportTemplate) (raw : Text)
    → validate_transport command_name (some t) ≡ ok tt
    → trimmed_name (raw_min_version (some t)) ≡ some raw
    → includes tls_versions raw ≡ true
unfolding validate_transport bad_min_version trimmed_name
accepted-known command_name t raw h e = elim (Option-cases t.tls) [
  | inl no_tls ↦ ground arith
  | inr (tls, some_tls) ↦ elim (Option-cases tls.min_version) [
    | inl no_version ↦ ground arith
    | inr (v, some_v) ↦ ground arith
  ]
]

accepted-parse :
    (command_name : Text) (input : Option TransportTemplate)
    → validate_transport command_name input ≡ ok tt
    → (v : Option TlsVersion) × (parse_tls_min_version input ≡ ok v)
unfolding validate_transport parse_tls_min_version
accepted-parse command_name none h = (none, refl)
accepted-parse command_name (some t) h =
    elim (Option-cases (trimmed_name (raw_min_version (some t)))) [
      | inl e ↦ (none, rw (e, parse_tls_min_version) refl)
      | inr (raw, e) ↦
          (let (v, known) = version_of_known raw (accepted-known command_name t raw h e) in
            (v, rw (e, parse_tls_min_version) known))
    ]

HasProxy-resolve :
    (input : Option TransportTemplate) (proxy_profiles : Map ProxyProfile)
    → HasProxy input proxy_profiles
    → (u : Option Text) × (resolve_proxy_url input proxy_profiles ≡ ok u)
unfolding resolve_proxy_url
HasProxy-resolve input proxy_profiles p =
    elim (Option-cases (trimmed_name (raw_proxy_profile input))) [
      | inl e ↦ (none, rw (e, resolve_proxy_url) refl)
      | inr (name, e) ↦
          (let (profile, found, filled) = p name e in
            (some (trim profile.url), rw (e, found, filled, resolve_proxy_url, proxy_url_of) refl))
    ]

resolve-HasProxy :
    (input : Option TransportTemplate) (proxy_profiles : Map ProxyProfile) (u : Option Text)
    → resolve_proxy_url input proxy_profiles ≡ ok u
    → HasProxy input proxy_profiles
unfolding resolve_proxy_url
resolve-HasProxy input proxy_profiles u h name e =
    let opened : proxy_url_of name (lookup name proxy_profiles) ≡ ok u = ground arith in
    elim (Option-cases (lookup name proxy_profiles)) [
      | inl missing ↦ absurd (ground arith)
      | inr (profile, found) ↦ (profile, found, ground arith)
    ]

-- Settings that the validator accepts are resolved exactly when the proxy profile that they name,
-- if any, is configured with a URL that is not blank: the other refusal, of a TLS version, is left
-- for settings that were not validated.
pub validate_transport-resolve_iff :
    (command_name : Text) (input : Option TransportTemplate) (proxy_profiles : Map ProxyProfile)
    → validate_transport command_name input ≡ ok tt
    → ((t : ResolvedTransport) × (resolve_transport input proxy_profiles ≡ ok t))
      ↔ HasProxy input proxy_profiles
unfolding resolve_transport
validate_transport-resolve_iff command_name input proxy_profiles h =
    let (v, parsed) = accepted-parse command_name input h in
    (
      λ (t, resolved).
          (let (v1, _, h1) = bind-eq_ok (parse_tls_min_version input) _ resolved in
            let (u, resolved_url, _) = bind-eq_ok (resolve_proxy_url input proxy_profiles) _ h1 in
            resolve-HasProxy input proxy_profiles u resolved_url),
      λ p.
          (let (u, found) = HasProxy-resolve input proxy_profiles p in
            bind-ok (parse_tls_min_version input) _ parsed
              (bind-ok (resolve_proxy_url input proxy_profiles) _ found (_, refl))),
    )

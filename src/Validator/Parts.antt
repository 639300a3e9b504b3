-- ===== src/Validator/Parts.antt =====
-- The checks of src/template/validator.rs that several protocols share: secrets, bodies, transport.
use earl.Prelude.{
  ℕ, ◌+◌, Bool, false, not, ◌&&◌, Option, none, some, List, [], ◌∷◌, ◌==◌, if◌then◌else◌, any,
  is_empty, some_and, is_some, Result, ok, ◌>>◌, bail_if, each,
}
use earl.Text.{Text, codes, text_eq, trim, is_blank}
use earl.Schema.{
  AuthTemplate, api_key, bearer, basic, o_auth2_profile, BodyTemplate, multipart, file_stream,
  MultipartPartTemplate, TlsTemplate, TransportTemplate,
}
use earl.Validator.{ValidationError}

-- A check of the validator.
abbrev pub Check : Type 0
Check = Result ValidationError (Unit {0})

-- `set.contains(name)`, and `list.iter().any(|s| s == name)`.
unfoldable pub includes : List Text → Text → Bool
unfolding any text_eq
includes names name = any (λ s. text_eq s name) names

unfoldable pub ensure_secret : Text → List Text → Text → Check
unfolding includes
ensure_secret command_name allowed_secrets secret =
    bail_if (not (includes allowed_secrets secret))
      (ValidationError.undeclared_secret command_name secret)

unfoldable pub validate_auth : Text → AuthTemplate → List Text → Check
unfolding ensure_secret
validate_auth command_name AuthTemplate.none allowed_secrets = ok tt
validate_auth command_name (api_key location name secret) allowed_secrets =
    ensure_secret command_name allowed_secrets secret
validate_auth command_name (bearer secret) allowed_secrets =
    ensure_secret command_name allowed_secrets secret
validate_auth command_name (basic username password_secret) allowed_secrets =
    ensure_secret command_name allowed_secrets password_secret
validate_auth command_name (o_auth2_profile profile) allowed_secrets = ok tt

abbrev pub count_some : Option Text → ℕ
count_some o = if is_some o then 1 else 0

unfoldable pub validate_part : Text → MultipartPartTemplate → Check
validate_part command_name part =
    let count = count_some part.value + count_some part.bytes_base64 + count_some part.file_path in
    bail_if (not (count == 1)) (ValidationError.bad_part command_name part.name)

unfoldable pub validate_body : Text → BodyTemplate → Check
unfolding validate_part each is_blank
validate_body command_name (multipart parts) =
    bail_if (is_empty parts) (ValidationError.no_parts command_name)
    >> each (validate_part command_name) parts
validate_body command_name (file_stream path content_type) =
    bail_if (is_blank path) (ValidationError.empty_stream_path command_name)
validate_body command_name _ = ok tt

abbrev pub tls_versions : List Text
tls_versions = codes "1.0" ∷ codes "1.1" ∷ codes "1.2" ∷ codes "1.3" ∷ []

unfoldable pub bad_min_version : Option TlsTemplate → Bool
unfolding trim includes
bad_min_version none = false
bad_min_version (some tls) =
    some_and (λ v. not (is_empty (trim v)) && not (includes tls_versions (trim v))) tls.min_version

abbrev pub min_version_text : Option TlsTemplate → Text
min_version_text none = []
min_version_text (some tls) = elim tls.min_version [ none ↦ [] | some v ↦ v ]

unfoldable pub validate_transport : Text → Option TransportTemplate → Check
unfolding is_blank bad_min_version trim
validate_transport command_name none = ok tt
validate_transport command_name (some transport) =
    bail_if (some_and (λ timeout_ms. timeout_ms == 0) transport.timeout_ms)
      (ValidationError.zero_timeout command_name)
    >> (bail_if (some_and (λ max. max == 0) transport.max_response_bytes)
          (ValidationError.zero_max_response_bytes command_name)
        >> (bail_if (some_and is_blank transport.proxy_profile)
              (ValidationError.empty_proxy_profile command_name)
            >> bail_if (bad_min_version transport.tls) (
                ValidationError.bad_min_version command_name
                  (trim (min_version_text transport.tls)))))

-- ===== src/Redactor/Tests.antt =====
-- Secrets and outputs for crates/earl-core/src/redact.rs, and instances of the theorems.
use earl.Prelude.{true, false, ◌≡◌, refl, inl, List, [], ◌∷◌}
use earl.Text.{Text, codes}
use earl.Json.{Value, json_object}
use earl.Redactor.{Encodings, hex_encode, new_redactor, redact, redact_json}
use earl.Redactor.Occurrences.{occurs}
use earl.Redactor.Lacks.{IsPlain}
use earl.Redactor.Covers.{redact-Lacks}

abbrev encodings : Encodings
encodings = record {
  base64_standard = λ b. codes "b64";
  base64_url_safe = λ b. codes "b64";
  byte_serialize = λ b. [];
}

abbrev secrets : List Text
secrets = codes "abc" ∷ codes "abcd" ∷ [] ∷ []

-- The longer secret is replaced first; the key of an object is kept as it is.
redact_tests :
    (new_redactor encodings secrets ≡ codes "abcd" ∷ codes "abc" ∷ [])
    × (redact (new_redactor encodings secrets) (codes "xabcdyabc") ≡ codes "x[REDACTED]y[REDACTED]")
    × (hex_encode true (171 ∷ 5 ∷ []) ≡ codes "AB05")
    × (redact_json (codes "abc" ∷ []) (json_object ((codes "abc", Value.string (codes "abc")) ∷ []))
        ≡ json_object ((codes "abc", Value.string (codes "[REDACTED]")) ∷ []))
unfolding new_redactor redact hex_encode redact_json
redact_tests = (refl, refl, refl, refl)

secret-IsPlain : IsPlain (codes "abc")
unfolding occurs
secret-IsPlain = record {
  filled = refl;
  no_open = (refl, (refl, (refl, tt)));
  no_close = (refl, (refl, (refl, tt)));
  no_word = refl;
}

redact-Lacks_example :
    occurs (codes "abc") (redact (new_redactor encodings secrets) (codes "xabcdyabc")) ≡ false
redact-Lacks_example =
    redact-Lacks encodings secrets (codes "abc") (codes "xabcdyabc") secret-IsPlain (inl refl)

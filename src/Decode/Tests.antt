-- ===== src/Decode/Tests.antt =====
-- Bodies for crates/earl-core/src/decode.rs, and an instance of the theorem.
use earl.Prelude.{if◌then◌else◌, ℕ, true, ◌≡◌, refl, Option, none, some, some_and, List, ok, err}
use earl.Text.{codes, text_eq, to_ascii_lowercase}
use earl.Json.{Value}
use earl.Schema.{ResultDecode}
use earl.Decode.{DecodedBody, DecodeError, Readers, says_json, decode_response, decode_response-err}

-- Only the empty array is read as JSON.
abbrev from_slice : List ℕ → Option Value
from_slice bytes = if text_eq bytes (codes "[]") then some Value.null else none

abbrev readers : Readers
readers = record { from_slice = from_slice; from_utf8_lossy = λ bytes. bytes }

decode_tests :
    (decode_response readers ResultDecode.auto (some (codes "Text/HTML")) (codes "<p>")
      ≡ ok (DecodedBody.html (codes "<p>")))
    × (decode_response readers ResultDecode.auto none (codes "[]")
        ≡ ok (DecodedBody.json Value.null))
    × (decode_response readers ResultDecode.auto (some (codes "image/svg+xml")) (codes "x")
        ≡ ok (DecodedBody.xml (codes "x")))
    × (decode_response readers ResultDecode.binary (some (codes "a/b+json")) (codes "x")
        ≡ ok (DecodedBody.binary (codes "x")))
unfolding decode_response text_eq
decode_tests = (refl, refl, refl, refl)

refused :
    decode_response readers ResultDecode.auto (some (codes "application/hal+JSON")) (codes "x")
    ≡ err DecodeError.invalid_json
unfolding decode_response text_eq
refused = refl

decode_response-err_example :
    (some_and (λ ct. says_json (to_ascii_lowercase ct)) (some (codes "application/hal+JSON"))
      ≡ true)
    × (readers.from_slice (codes "x") ≡ none)
decode_response-err_example =
    decode_response-err readers (some (codes "application/hal+JSON")) (codes "x")
      DecodeError.invalid_json refused

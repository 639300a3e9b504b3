-- ===== src/Decode.antt =====
-- The decoding of a response body: crates/earl-core/src/decode.rs. The parser of JSON bytes
-- (`serde_json::from_slice`) and the lossy reading of UTF-8 are parameters.
mod Tests
use earl.Prelude.{
  ℕ, Bool, true, false, ◌||◌, ◌≡◌, refl, ◌∙◌, ap, inl, inr, Bool-cases, Option, none, some,
  Option-cases, List, ◌++◌, arith, if◌then◌else◌, is_some, some_and, Result, ok, err,
}
use earl.Text.{Text, codes, to_ascii_lowercase, contains, starts_with, ends_with}
use earl.Json.{Value}
use earl.Schema.{ResultDecode}

pub data DecodedBody : Type 0 where
  json : Value → DecodedBody
  text html xml : Text → DecodedBody
  binary : List ℕ → DecodedBody

pub data DecodeError : Type 0 where
  invalid_json : DecodeError

abbrev says_json : Text → Bool
says_json lower = contains lower (codes "application/json") || ends_with (codes "+json") lower

-- The mode that a content type gives, in lower case, if it gives one.
unfoldable pub mode_of_type : Text → Option ResultDecode
unfolding contains starts_with ends_with
mode_of_type lower =
    if says_json lower
    then some ResultDecode.json
    else if contains lower (codes "text/html")
    then some ResultDecode.html
    else if contains lower (codes "xml")
    then some ResultDecode.xml
    else if starts_with (codes "text/") lower
    then some ResultDecode.text
    else none

-- What the decoder asks of other libraries.
pub record Readers : Type 0 where
  pub from_slice : List ℕ → Option Value
  pub from_utf8_lossy : List ℕ → Text

abbrev pub type_mode : Option Text → Option ResultDecode
type_mode none = none
type_mode (some ct) = mode_of_type (to_ascii_lowercase ct)

chain-json :
    (a b c d : Bool)
    → (if a
        then some ResultDecode.json
        else if b
        then some ResultDecode.html
        else if c
        then some ResultDecode.xml
        else if d
        then some ResultDecode.text
        else none)
      ≡ some ResultDecode.json
    → a ≡ true
chain-json true b c d h = refl
chain-json false true c d h = absurd (ground arith)
chain-json false false true d h = absurd (ground arith)
chain-json false false false true h = absurd (ground arith)
chain-json false false false false h = absurd (ground arith)

module _ (readers : Readers) where
  unfoldable pub infer_mode : Option Text → List ℕ → ResultDecode
  unfolding mode_of_type to_ascii_lowercase
  infer_mode content_type body = elim (type_mode content_type) [
    | some mode ↦ mode
    | none ↦ if is_some (readers.from_slice body) then ResultDecode.json else ResultDecode.text
  ]

  unfoldable pub decode_json : List ℕ → Result DecodeError DecodedBody
  decode_json bytes = elim (readers.from_slice bytes) [
    | none ↦ err DecodeError.invalid_json
    | some value ↦ ok (DecodedBody.json value)
  ]

  -- The body in a mode that is settled.
  unfoldable pub decode_as : ResultDecode → List ℕ → Result DecodeError DecodedBody
  unfolding decode_json
  decode_as ResultDecode.auto bytes = ok (DecodedBody.text (readers.from_utf8_lossy bytes))
  decode_as ResultDecode.text bytes = ok (DecodedBody.text (readers.from_utf8_lossy bytes))
  decode_as ResultDecode.json bytes = decode_json bytes
  decode_as ResultDecode.html bytes = ok (DecodedBody.html (readers.from_utf8_lossy bytes))
  decode_as ResultDecode.xml bytes = ok (DecodedBody.xml (readers.from_utf8_lossy bytes))
  decode_as ResultDecode.binary bytes = ok (DecodedBody.binary bytes)

  unfoldable pub inferred_mode : ResultDecode → Option Text → List ℕ → ResultDecode
  unfolding infer_mode
  inferred_mode ResultDecode.auto content_type bytes = infer_mode content_type bytes
  inferred_mode mode content_type bytes = mode

  unfoldable pub decode_response :
      ResultDecode → Option Text → List ℕ → Result DecodeError DecodedBody
  unfolding decode_as inferred_mode
  decode_response mode content_type bytes = decode_as (inferred_mode mode content_type bytes) bytes

  decode_as-err :
      (mode : ResultDecode) (bytes : List ℕ) (e : DecodeError)
      → decode_as mode bytes ≡ err e
      → (mode ≡ ResultDecode.json) × (readers.from_slice bytes ≡ none)
  unfolding decode_as
  decode_as-err ResultDecode.json bytes e h = elim (Option-cases (readers.from_slice bytes)) [
    | inl bad ↦ (refl, bad)
    | inr (value, good) ↦ absurd (ground (arith, decode_json))
  ]
  decode_as-err mode bytes e h = cc

  mode_of_type-json :
      (lower : Text) → mode_of_type lower ≡ some ResultDecode.json → says_json lower ≡ true
  unfolding mode_of_type
  mode_of_type-json lower h = chain-json (says_json lower) _ _ _ h

  infer_mode-json :
      (content_type : Option Text) (bytes : List ℕ)
      → infer_mode content_type bytes ≡ ResultDecode.json
      → readers.from_slice bytes ≡ none
      → some_and (λ ct. says_json (to_ascii_lowercase ct)) content_type ≡ true
  unfolding infer_mode
  infer_mode-json none bytes h bad =
      let opened : (if is_some (readers.from_slice bytes)
            then ResultDecode.json
            else ResultDecode.text)
          ≡ ResultDecode.json =
        h in
      absurd (ground arith)
  infer_mode-json (some ct) bytes h bad =
      elim (Option-cases (mode_of_type (to_ascii_lowercase ct))) [
        | inl silent ↦ absurd (ground (arith, infer_mode))
        | inr (mode, named) ↦
            mode_of_type-json (to_ascii_lowercase ct) (named ∙ ap (λ m. some m) (ground arith))
      ]

  -- In automatic mode a body is refused only where its content type names JSON and it is not JSON:
  -- every other body is decoded, also one without a content type.
  pub decode_response-err :
      (content_type : Option Text) (bytes : List ℕ) (e : DecodeError)
      → decode_response ResultDecode.auto content_type bytes ≡ err e
      → (some_and (λ ct. says_json (to_ascii_lowercase ct)) content_type ≡ true)
        × (readers.from_slice bytes ≡ none)
  unfolding decode_response
  decode_response-err content_type bytes e h =
      let (json_mode, bad) = decode_as-err (infer_mode content_type bytes) bytes e h in
      (infer_mode-json content_type bytes json_mode bad, bad)

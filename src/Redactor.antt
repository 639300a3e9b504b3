-- ===== src/Redactor.antt =====
-- The redaction of secrets in output: crates/earl-core/src/redact.rs. The encodings of the crates base64
-- and url are parameters.
pub mod Occurrences
pub mod Lacks
pub mod Covers
mod Tests
use earl.Prelude.{
  ℕ, ◌+◌, ◌/◌, ◌%◌, Bool, true, false, not, ◌&&◌, ◌||◌, Option, none, some, List, [], ◌∷◌, ◌++◌,
  ltb, ◌==◌, is_empty, if◌then◌else◌,
}
use earl.Text.{Text, codes, bytes, len, split_once, text_eq}
use earl.Text.Keys.{text_lt}
use earl.Text.Scan.{Step, scan_all}
use earl.Json.{Value, Items, Fields}

pub record Encodings : Type 0 where
  pub base64_standard : List ℕ → Text
  pub base64_url_safe : List ℕ → Text
  pub byte_serialize : List ℕ → Text

-- A digit of `{:02x}`, or of `{:02X}`.
abbrev hex_digit : Bool → ℕ → ℕ
hex_digit uppercase d = if ltb d 10 then b'0' + d else if uppercase then 55 + d else 87 + d

unfoldable pub hex_encode : Bool → List ℕ → Text
hex_encode uppercase [] = []
hex_encode uppercase (b ∷ bytes) =
    hex_digit uppercase (b / 16) ∷ hex_digit uppercase (b % 16) ∷ hex_encode uppercase bytes

-- A set of texts in their order.
unfoldable pub insert_variant : Text → List Text → List Text
unfolding text_lt text_eq
insert_variant v [] = v ∷ []
insert_variant v (x ∷ xs) =
    let rest = insert_variant v xs in
    if text_eq v x then x ∷ xs else if text_lt v x then v ∷ x ∷ xs else x ∷ rest

unfoldable pub insert_variants : List Text → List Text → List Text
unfolding insert_variant
insert_variants [] variants = variants
insert_variants (v ∷ vs) variants = insert_variants vs (insert_variant v variants)

-- The longer text first, and of two of the same length the one that comes first in their order.
unfoldable pub goes_before : Text → Text → Bool
unfolding len text_lt
goes_before v x = ltb (len x) (len v) || (len v == len x) && not (text_lt x v)

unfoldable pub place_variant : Text → List Text → List Text
unfolding goes_before
place_variant v [] = v ∷ []
place_variant v (x ∷ xs) =
    let rest = place_variant v xs in if goes_before v x then v ∷ x ∷ xs else x ∷ rest

unfoldable pub sort_variants : List Text → List Text
unfolding place_variant
sort_variants [] = []
sort_variants (v ∷ vs) = place_variant v (sort_variants vs)

module _ (encodings : Encodings) where
  unfoldable pub encoded_variants : Text → List Text
  unfolding hex_encode bytes
  encoded_variants secret =
      encodings.base64_standard (bytes secret)
      ∷ encodings.base64_url_safe (bytes secret)
      ∷ hex_encode false (bytes secret)
      ∷ hex_encode true (bytes secret)
      ∷ (if is_empty (encodings.byte_serialize (bytes secret))
          then []
          else encodings.byte_serialize (bytes secret) ∷ [])

  unfoldable pub variants_of : Text → List Text
  unfolding encoded_variants len
  variants_of secret =
      if is_empty secret
      then []
      else secret ∷ (if ltb (len secret) 6 then [] else encoded_variants secret)

  -- The loop over the secrets.
  unfoldable pub collect_variants : List Text → List Text → List Text
  unfolding variants_of insert_variants
  collect_variants [] variants = variants
  collect_variants (secret ∷ secrets) variants =
      collect_variants secrets (insert_variants (variants_of secret) variants)

  -- The field `secrets` of `Redactor::new`.
  unfoldable pub new_redactor : List Text → List Text
  unfolding collect_variants sort_variants
  new_redactor secrets = sort_variants (collect_variants secrets [])

abbrev pub marker : Text
marker = codes "[REDACTED]"

-- One match of `replace`.
unfoldable pub replace_step : Text → Step ℕ
unfolding split_once
replace_step secret s = elim (split_once secret s) [
  | none ↦ none
  | some (before, after) ↦ some (before ++ marker, after)
]

unfoldable pub replace : Text → Text → Text
unfolding replace_step scan_all
replace secret s = let (found, rest) = scan_all (replace_step secret) s in found ++ rest

unfoldable pub redact : List Text → Text → Text
unfolding replace
redact [] out = out
redact (secret ∷ secrets) out = redact secrets (replace secret out)

unfoldable mutual
  unfolding redact

  pub redact_json : List Text → Value → Value
  redact_json secrets (Value.string s) = Value.string (redact secrets s)
  redact_json secrets (Value.array values) = Value.array (redact_items secrets values)
  redact_json secrets (Value.object map) = Value.object (redact_fields secrets map)
  redact_json secrets (Value.bool b) = Value.bool b
  redact_json secrets (Value.number n) = Value.number n
  redact_json secrets Value.null = Value.null

  pub redact_items : List Text → Items → Items
  redact_items secrets Items.nil = Items.nil
  redact_items secrets (Items.cons v vs) =
      Items.cons (redact_json secrets v) (redact_items secrets vs)

  pub redact_fields : List Text → Fields → Fields
  redact_fields secrets Fields.end = Fields.end
  redact_fields secrets (Fields.field k v map) =
      Fields.field k (redact_json secrets v) (redact_fields secrets map)

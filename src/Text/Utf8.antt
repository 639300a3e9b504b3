-- ===== src/Text/Utf8.antt =====
-- UTF-8 as `str::from_utf8` reads it, byte by byte.
use earl.Prelude.{
  ℕ, ◌+◌, ◌-◌, ◌*◌, ◌<◌, ◌≡◌, refl, Option, none, some, List, [], ◌∷◌, ◌++◌, ltb, within,
  if◌then◌else◌, arith, All,
}
use earl.Text.{Text, bytes, encode}

-- Between two characters, or inside of one: the bytes that it still needs behind the next one, the
-- range of the next one, and the bits so far.
pub data Place : Type 0 where
  between : Place
  inside : (needed low high bits : ℕ) → Place

abbrev pub entered : ℕ → ℕ → ℕ → ℕ → Option (Place × Text)
entered needed low high bits = some (Place.inside needed low high bits, [])

-- The first byte of a character; overlong forms, surrogates and what lies above 0x10FFFF are refused.
unfoldable pub first_byte : ℕ → Option (Place × Text)
first_byte b =
    if ltb b 0x80
    then some (Place.between, b ∷ [])
    else if within 0xC2 0xDF b
    then entered 0 0x80 0xBF (b - 0xC0)
    else if within 0xE0 0xE0 b
    then entered 1 0xA0 0xBF 0
    else if within 0xED 0xED b
    then entered 1 0x80 0x9F 13
    else if within 0xE1 0xEF b
    then entered 1 0x80 0xBF (b - 0xE0)
    else if within 0xF0 0xF0 b
    then entered 2 0x90 0xBF 0
    else if within 0xF1 0xF3 b
    then entered 2 0x80 0xBF (b - 0xF0)
    else if within 0xF4 0xF4 b
    then entered 2 0x80 0x8F 4
    else none

-- One byte: the new place and the character that it completes.
unfoldable pub byte_step : Place → ℕ → Option (Place × Text)
unfolding first_byte
byte_step Place.between b = first_byte b
byte_step (Place.inside ℕ.zero low high bits) b =
    if within low high b then some (Place.between, (bits * 64 + (b - 0x80)) ∷ []) else none
byte_step (Place.inside (ℕ.suc needed) low high bits) b =
    if within low high b then entered needed 0x80 0xBF (bits * 64 + (b - 0x80)) else none

abbrev pub in_front : Text → Option Text → Option Text
in_front found none = none
in_front found (some more) = some (found ++ more)

unfoldable pub decode_from : Place → List ℕ → Option Text
unfolding byte_step
decode_from Place.between [] = some []
decode_from (Place.inside needed low high bits) [] = none
decode_from place (b ∷ s) = elim (byte_step place b) [
  | none ↦ none
  | some (next, found) ↦ in_front found (decode_from next s)
]

unfoldable pub from_utf8 : List ℕ → Option Text
unfolding decode_from
from_utf8 s = decode_from Place.between s

abbrev pub Ascii : Text → Type 0
Ascii s = All (λ c. c < 128) s

-- ASCII text is its own encoding.
pub bytes-Ascii : (s : Text) → Ascii s → bytes s ≡ s
unfolding bytes encode
bytes-Ascii [] h = refl
bytes-Ascii (c ∷ s) (p, h) = ground (arith, bytes-Ascii s h)

pub from_utf8-Ascii : (s : Text) → Ascii s → from_utf8 s ≡ some s
unfolding from_utf8
from_utf8-Ascii [] h = refl
from_utf8-Ascii (c ∷ s) (p, h) = ground (arith, from_utf8-Ascii s h)

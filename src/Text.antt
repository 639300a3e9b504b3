-- ===== src/Text.antt =====
-- Rust's `str` as the list of its code points, with the methods of the standard library that the
-- program calls. `bytes` is the UTF-8 encoding; lengths and offsets of the source count its bytes.
pub mod Laws
pub mod Keys
pub mod Scan
pub mod Decimal
pub mod Utf8
use Prim.Native.Char.{code}
use Prim.Native.String
use earl.Prelude.{
  ℕ, zero, suc, ◌+◌, ◌-◌, ◌/◌, ◌%◌, String, Bool, true, false, not, ◌&&◌, ◌||◌, Option, none, some,
  List, [], ◌∷◌, ◌++◌, map, ltb, leb, within, ◌==◌, if◌then◌else◌, length,
}

abbrev pub Text : Type 0
Text = List ℕ

-- The code points of a literal.
abbrev pub codes : String → Text
codes (String.◌∷◌ letter more) = code letter ∷ codes more
codes String.[] = []

encode : ℕ → List ℕ
encode c =
    if ltb c 0x80
    then c ∷ []
    else if ltb c 0x800
    then (0xC0 + c / 64) ∷ (0x80 + c % 64) ∷ []
    else if ltb c 0x10000
    then (0xE0 + c / 4096) ∷ (0x80 + c / 64 % 64) ∷ (0x80 + c % 64) ∷ []
    else (0xF0 + c / 262144) ∷ (0x80 + c / 4096 % 64) ∷ (0x80 + c / 64 % 64) ∷ (0x80 + c % 64) ∷ []

-- `as_bytes` and `len`.
unfoldable pub bytes : Text → List ℕ
unfolding encode
bytes [] = []
bytes (c ∷ s) = encode c ++ bytes s

unfoldable pub len : Text → ℕ
unfolding bytes
len s = length (bytes s)

-- `==` on strings, and on slices of bytes.
unfoldable pub text_eq : Text → Text → Bool
text_eq [] [] = true
text_eq (a ∷ s) (b ∷ t) = a == b && text_eq s t
text_eq [] (_ ∷ _) = false
text_eq (_ ∷ _) [] = false

abbrev pub is_ascii_alphanumeric : ℕ → Bool
is_ascii_alphanumeric c = within b'0' b'9' c || within b'A' b'Z' c || within b'a' b'z' c

abbrev pub to_lower : ℕ → ℕ
to_lower c = if within b'A' b'Z' c then c + 32 else c

-- `to_ascii_lowercase` and `eq_ignore_ascii_case`.
unfoldable pub to_ascii_lowercase : Text → Text
to_ascii_lowercase = map to_lower

unfoldable pub eq_ignore_ascii_case : Text → Text → Bool
unfolding text_eq to_ascii_lowercase
eq_ignore_ascii_case s t = text_eq (to_ascii_lowercase s) (to_ascii_lowercase t)

-- `char::is_whitespace`, the White_Space property of Unicode.
abbrev pub is_whitespace : ℕ → Bool
is_whitespace c =
    within 9 13 c
    || c == 32
    || c == 0x85
    || c == 0xA0
    || c == 0x1680
    || within 0x2000 0x200A c
    || c == 0x2028
    || c == 0x2029
    || c == 0x202F
    || c == 0x205F
    || c == 0x3000

-- `trim_start_matches(p)` and `trim_end_matches(p)`.
unfoldable pub trim_start_matches : (ℕ → Bool) → Text → Text
trim_start_matches p [] = []
trim_start_matches p (c ∷ s) = if p c then trim_start_matches p s else c ∷ s

keep_front : Bool → ℕ → Text → Text
keep_front drops c [] = if drops then [] else c ∷ []
keep_front drops c (d ∷ s) = c ∷ d ∷ s

unfoldable pub trim_end_matches : (ℕ → Bool) → Text → Text
unfolding keep_front
trim_end_matches p [] = []
trim_end_matches p (c ∷ s) = keep_front (p c) c (trim_end_matches p s)

unfoldable pub trim : Text → Text
unfolding trim_start_matches trim_end_matches
trim s = trim_end_matches is_whitespace (trim_start_matches is_whitespace s)

-- `s.trim().is_empty()`.
unfoldable pub is_blank : Text → Bool
unfolding trim
is_blank s = elim (trim s) [ [] ↦ true | _ ∷ _ ↦ false ]

-- `strip_prefix` and `starts_with`.
unfoldable pub strip_prefix : Text → Text → Option Text
strip_prefix [] s = some s
strip_prefix (a ∷ p) [] = none
strip_prefix (a ∷ p) (b ∷ s) = if a == b then strip_prefix p s else none

unfoldable pub starts_with : Text → Text → Bool
starts_with [] s = true
starts_with (a ∷ p) [] = false
starts_with (a ∷ p) (b ∷ s) = a == b && starts_with p s

add_front : ℕ → Option (Text × Text) → Option (Text × Text)
add_front c none = none
add_front c (some (before, after)) = some (c ∷ before, after)

or_later : ℕ → Option Text → Option (Text × Text) → Option (Text × Text)
unfolding add_front
or_later c (some after) later = some ([], after)
or_later c none later = add_front c later

-- `find(needle)` with the slices before and behind the first occurrence.
unfoldable pub split_once : Text → Text → Option (Text × Text)
unfolding strip_prefix or_later
split_once p [] = elim (strip_prefix p []) [ none ↦ none | some after ↦ some ([], after) ]
split_once p (c ∷ s) = or_later c (strip_prefix p (c ∷ s)) (split_once p s)

unfoldable pub contains : Text → Text → Bool
unfolding split_once
contains s p = elim (split_once p s) [ none ↦ false | some _ ↦ true ]

unfoldable pub ends_with : Text → Text → Bool
unfolding text_eq
ends_with suffix [] = text_eq [] suffix
ends_with suffix (c ∷ s) =
    let later = ends_with suffix s in if text_eq (c ∷ s) suffix then true else later

-- `find` of the first character that satisfies `p`, as the slices at that place.
unfoldable pub span : (ℕ → Bool) → Text → Text × Text
span p [] = ([], [])
span p (c ∷ s) = let (before, after) = span p s in if p c then (c ∷ before, after) else ([], c ∷ s)

-- `split_whitespace`: the words, with the word in front of the rest as the first, empty where the text
-- begins with white space.
front_word : ℕ → Text × List Text → Text × List Text
front_word c (word, more) = if is_whitespace c then ([], word ∷ more) else (c ∷ word, more)

words_from : Text → Text × List Text
unfolding front_word
words_from [] = ([], [])
words_from (c ∷ s) = front_word c (words_from s)

drop_empty : List Text → List Text
drop_empty [] = []
drop_empty ([] ∷ more) = drop_empty more
drop_empty ((c ∷ word) ∷ more) = (c ∷ word) ∷ drop_empty more

unfoldable pub split_whitespace : Text → List Text
unfolding words_from drop_empty
split_whitespace s = let (word, more) = words_from s in drop_empty (word ∷ more)

-- ===== src/Mcp/Frames.antt =====
-- Frames over stdio: read_stdio_frame, parse_content_length and write_stdio_frame of src/mcp/mod.rs.
-- A reader is the bytes that it still gives.
pub mod RoundTrip
pub mod Lengths
use earl.Prelude.{
  ℕ, zero, suc, ◌+◌, ◌*◌, Bool, true, false, not, ◌||◌, Option, none, some, List, [], ◌∷◌, ◌++◌,
  length, ltb, ◌==◌, is_empty, if◌then◌else◌, Result, ok, err, ◌>>=◌, bail_if, or_fail,
}
use earl.Text.{
  Text, codes, bytes, text_eq, is_blank, trim, trim_end_matches, split_once, eq_ignore_ascii_case,
}
use earl.Text.Utf8.{from_utf8}
use earl.Text.Decimal.{decimal, parse_usize}

abbrev pub Bytes : Type 0
Bytes = List ℕ

abbrev pub max_frame_size : ℕ
max_frame_size = 10 * 1024 * 1024

-- `out_of_fuel` is no error of the source.
pub data FrameError : Type 0 where
  invalid_utf8 frame_too_large eof_in_headers eof_in_body invalid_content_length out_of_fuel :
      FrameError

-- A line with its line feed, and what is behind it.
unfoldable pub split_line : Bytes → Bytes × Bytes
split_line [] = ([], [])
split_line (b ∷ s) =
    let (line, rest) = split_line s in if b == 10 then (10 ∷ [], s) else (b ∷ line, rest)

unfoldable pub read_line : Bytes → Result FrameError (Text × Bytes)
unfolding split_line from_utf8
read_line reader =
    let (line, rest) = split_line reader in
    do text ← or_fail (from_utf8 line) FrameError.invalid_utf8; ok (text, rest)

abbrev pub is_end_of_headers : Text → Bool
is_end_of_headers header = text_eq header (13 ∷ 10 ∷ []) || text_eq header (10 ∷ [])

-- The inner loop, up to the blank line behind the headers.
unfoldable pub skip_headers : ℕ → Bytes → Result FrameError Bytes
unfolding read_line text_eq
skip_headers zero reader = err FrameError.out_of_fuel
skip_headers (suc fuel) reader = elim (read_line reader) [
  | err e ↦ err e
  | ok (header, rest) ↦
      (let more = skip_headers fuel rest in
        if is_empty reader
        then err FrameError.eof_in_headers
        else if is_end_of_headers header
        then ok rest
        else more)
]

unfoldable pub read_exact : ℕ → Bytes → Result FrameError (Bytes × Bytes)
read_exact zero reader = ok ([], reader)
read_exact (suc n) [] = err FrameError.eof_in_body
read_exact (suc n) (b ∷ reader) = do (body, rest) ← read_exact n reader; ok (b ∷ body, rest)

unfoldable pub parse_content_length : Text → Result FrameError (Option ℕ)
unfolding split_once eq_ignore_ascii_case trim parse_usize
parse_content_length line = elim (split_once (codes ":") line) [
  | none ↦ ok none
  | some (name, value) ↦
      (if not (eq_ignore_ascii_case (trim name) (codes "Content-Length"))
        then ok none
        else elim (parse_usize (trim value)) [
          | none ↦ err FrameError.invalid_content_length
          | some n ↦ ok (some n)
        ])
]

-- Behind the header Content-Length: the other headers and the body.
unfoldable pub read_body : ℕ → Bytes → Result FrameError (Option Bytes × Bytes)
unfolding skip_headers read_exact
read_body content_length reader = do
  small ← bail_if (ltb max_frame_size content_length) FrameError.frame_too_large
  after ← skip_headers (suc (length reader)) reader
  (body, rest) ← read_exact content_length after
  ok (some body, rest)

abbrev pub is_newline : ℕ → Bool
is_newline c = c == 13 || c == 10

-- A frame that begins with a line which is not blank: with headers, or the line itself.
unfoldable pub frame_at : Text → Bytes → Result FrameError (Option Bytes × Bytes)
unfolding parse_content_length read_body bytes trim_end_matches
frame_at line rest = elim (parse_content_length line) [
  | err e ↦ err e
  | ok (some content_length) ↦ read_body content_length rest
  | ok none ↦ ok (some (bytes (trim_end_matches is_newline line)), rest)
]

-- The outer loop, which passes over blank lines.
unfoldable pub read_from : ℕ → Bytes → Result FrameError (Option Bytes × Bytes)
unfolding read_line is_blank frame_at
read_from zero reader = err FrameError.out_of_fuel
read_from (suc fuel) reader = elim (read_line reader) [
  | err e ↦ err e
  | ok (line, rest) ↦
      (let more = read_from fuel rest in
        if is_empty reader
        then ok (none, [])
        else if is_blank line
        then more
        else frame_at line rest)
]

unfoldable pub read_stdio_frame : Bytes → Result FrameError (Option Bytes × Bytes)
unfolding read_from
read_stdio_frame reader = read_from (suc (length reader)) reader

-- The bytes that are written for a response whose JSON is `body`.
unfoldable pub write_stdio_frame : Bytes → Bytes
unfolding bytes decimal
write_stdio_frame body =
    bytes (codes "Content-Length: " ++ (decimal (length body) ++ 13 ∷ 10 ∷ 13 ∷ 10 ∷ [])) ++ body

-- ===== src/Mcp/Frames/Lengths.antt =====
-- Reading a frame takes bytes off the input: read_stdio_frame of src/mcp/mod.rs.
use earl.Prelude.{
  ℕ, zero, suc, ◌+◌, ◌≤◌, ◌<◌, false, ◌≡◌, refl, ◌⊎◌, Option, none, some, Option-cases, [], ◌∷◌,
  length, is_empty, ltb, Result, ok, err, ◌>>=◌, Bool-cases, inl, inr, arith,
}
use earl.Text.{Text, codes, is_blank, split_once, trim, eq_ignore_ascii_case}
use earl.Text.Decimal.{parse_usize}
use earl.Text.Utf8.{from_utf8}
use earl.Mcp.Frames.{
  Bytes, FrameError, max_frame_size, split_line, read_line, skip_headers, read_exact, read_body,
  parse_content_length, is_end_of_headers, frame_at, read_from, read_stdio_frame,
}

length-split_line : (s : Bytes) → length s ≡ length (split_line s).0 + length (split_line s).1
unfolding split_line
length-split_line [] = refl
length-split_line (b ∷ s) = ground (arith, length-split_line s)

split_line-shorter : (s : Bytes) → is_empty s ≡ false → length (split_line s).1 < length s
unfolding split_line
split_line-shorter [] h = cc
split_line-shorter (b ∷ s) h = ground (arith, length-split_line s)

-- A result of a size of at most `n`, or an error that is no lack of fuel.
module _ {A : Type 0} (size : A → ℕ) where
  abbrev pub Within : ℕ → Result FrameError A → Type 0
  Within n (ok a) = size a ≤ n
  Within n (err FrameError.out_of_fuel) = ⊥
  Within n (err e) = Unit

  Within-mono : (m n : ℕ) (r : Result FrameError A) → m ≤ n → Within m r → Within n r
  Within-mono m n (ok a) le h = omega arith
  Within-mono m n (err FrameError.invalid_utf8) le h = tt
  Within-mono m n (err FrameError.frame_too_large) le h = tt
  Within-mono m n (err FrameError.eof_in_headers) le h = tt
  Within-mono m n (err FrameError.eof_in_body) le h = tt
  Within-mono m n (err FrameError.invalid_content_length) le h = tt
  Within-mono m n (err FrameError.out_of_fuel) le h = h

module _ {A B : Type 0} (size : A → ℕ) (measure : B → ℕ) where
  err-Within : (m n : ℕ) (e : FrameError) → Within size m (err e) → Within measure n (err e)
  err-Within m n FrameError.invalid_utf8 h = tt
  err-Within m n FrameError.frame_too_large h = tt
  err-Within m n FrameError.eof_in_headers h = tt
  err-Within m n FrameError.eof_in_body h = tt
  err-Within m n FrameError.invalid_content_length h = tt
  err-Within m n FrameError.out_of_fuel h = h

  bind-Within :
      (m n : ℕ) (r : Result FrameError A) (f : A → Result FrameError B)
      → Within size m r
      → ((a : A) → size a ≤ m → Within measure n (f a))
      → Within measure n (r >>= f)
  bind-Within m n (ok a) f h g = g a h
  bind-Within m n (err e) f h g = err-Within m n e h

abbrev left : {A : Type 0} → A × Bytes → ℕ
left (a, rest) = length rest

read_line-cases :
    (reader : Bytes)
    → (read_line reader ≡ err FrameError.invalid_utf8)
      ⊎ ((line : Text) × (read_line reader ≡ ok (line, (split_line reader).1)))
unfolding read_line
read_line-cases reader = elim (Option-cases (from_utf8 (split_line reader).0)) [
  | inl bad ↦ rw bad (inl refl)
  | inr (line, e) ↦ rw e (inr (line, refl))
]

skip_headers-Within :
    (fuel : ℕ) (reader : Bytes)
    → length reader < fuel
    → Within length (length reader) (skip_headers fuel reader)
unfolding skip_headers
skip_headers-Within zero reader h = absurd (omega arith)
skip_headers-Within (suc fuel) reader h = elim (read_line-cases reader) [
  | inl bad ↦ rw (bad, skip_headers) tt
  | inr (line, e) ↦ elim (Bool-cases (is_empty reader)) [
    | inl over ↦ rw (e, skip_headers, over) tt
    | inr more ↦
        (let shorter = split_line-shorter reader more in
          elim (Bool-cases (is_end_of_headers line)) [
            | inl blank ↦ rw (e, skip_headers, more, blank) (omega arith)
            | inr other ↦
                rw (e, skip_headers, more, other)
                  (Within-mono length _ _ (skip_headers fuel (split_line reader).1) (omega arith)
                    (skip_headers-Within fuel (split_line reader).1 (omega arith)))
          ])
  ]
]

read_exact-Within : (n : ℕ) (reader : Bytes) → Within left (length reader) (read_exact n reader)
unfolding read_exact
read_exact-Within zero reader = omega arith
read_exact-Within (suc n) [] = tt
read_exact-Within (suc n) (b ∷ reader) =
    bind-Within left left (length reader) _ (read_exact n reader) _ (read_exact-Within n reader)
      (λ (body, rest) h. omega arith)

read_body-Within : (n : ℕ) (reader : Bytes) → Within left (length reader) (read_body n reader)
unfolding read_body
read_body-Within n reader = elim (Bool-cases (ltb max_frame_size n)) [
  | inl large ↦ rw large tt
  | inr small ↦ rw small (
      bind-Within length left (length reader) (length reader)
        (skip_headers (suc (length reader)) reader) _
        (skip_headers-Within (suc (length reader)) reader (omega arith))
        (λ after h.
          bind-Within left left (length after) (length reader) (read_exact n after) _
            (read_exact-Within n after) (λ (body, rest) k. omega arith)))
]

parse_content_length-cases :
    (line : Text)
    → (parse_content_length line ≡ err FrameError.invalid_content_length)
      ⊎ ((o : Option ℕ) × (parse_content_length line ≡ ok o))
unfolding parse_content_length
parse_content_length-cases line = elim (Option-cases (split_once (codes ":") line)) [
  | inl e ↦ inr (none, rw (e, parse_content_length))
  | inr ((name, value), e) ↦
      elim (Bool-cases (eq_ignore_ascii_case (trim name) (codes "Content-Length"))) [
        | inr other ↦ inr (none, rw (e, parse_content_length, other))
        | inl length_header ↦ elim (Option-cases (parse_usize (trim value))) [
          | inl bad ↦ inl (rw (e, parse_content_length, length_header, bad))
          | inr (n, k) ↦ inr (some n, rw (e, parse_content_length, length_header, k))
        ]
      ]
]

frame_at-Within : (line : Text) (rest : Bytes) → Within left (length rest) (frame_at line rest)
unfolding frame_at
frame_at-Within line rest = elim (parse_content_length-cases line) [
  | inl bad ↦ rw (bad, frame_at) tt
  | inr (none, e) ↦ rw (e, frame_at) (omega arith)
  | inr (some n, e) ↦ rw (e, frame_at) (read_body-Within n rest)
]

-- A frame counts as one byte of the input.
abbrev pub weight : Option Bytes × Bytes → ℕ
weight (none, rest) = length rest
weight (some body, rest) = suc (length rest)

heavier :
    (n : ℕ) (r : Result FrameError (Option Bytes × Bytes))
    → Within left n r
    → Within weight (suc n) r
heavier n (ok (none, rest)) h = omega arith
heavier n (ok (some body, rest)) h = omega arith
heavier n (err e) h = err-Within (left {A = Option Bytes}) weight n (suc n) e h

read_from-Within :
    (fuel : ℕ) (reader : Bytes)
    → length reader < fuel
    → Within weight (length reader) (read_from fuel reader)
unfolding read_from
read_from-Within zero reader h = absurd (omega arith)
read_from-Within (suc fuel) reader h = elim (read_line-cases reader) [
  | inl bad ↦ rw (bad, read_from) tt
  | inr (line, e) ↦ elim (Bool-cases (is_empty reader)) [
    | inl over ↦ rw (e, read_from, over) (omega arith)
    | inr more ↦
        (let shorter = split_line-shorter reader more in
          let rest = (split_line reader).1 in
          elim (Bool-cases (is_blank line)) [
            | inl blank ↦
                rw (e, read_from, more, blank)
                  (Within-mono weight (length rest) (length reader) (read_from fuel rest)
                    (omega arith) (read_from-Within fuel rest (omega arith)))
            | inr filled ↦
                rw (e, read_from, more, filled)
                  (Within-mono weight (suc (length rest)) (length reader) (frame_at line rest)
                    (omega arith)
                    (heavier (length rest) (frame_at line rest) (frame_at-Within line rest)))
          ])
  ]
]

pub read_stdio_frame-Within :
    (reader : Bytes) → Within weight (length reader) (read_stdio_frame reader)
unfolding read_stdio_frame
read_stdio_frame-Within reader = read_from-Within (suc (length reader)) reader (omega arith)

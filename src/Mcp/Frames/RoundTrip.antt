-- ===== src/Mcp/Frames/RoundTrip.antt =====
-- A frame that write_stdio_frame writes is read back by read_stdio_frame: src/mcp/mod.rs.
use earl.Prelude.{
  ℕ, suc, ◌≤◌, ◌<◌, Bool, true, false, ◌≡◌, refl, ap, ◌∙◌, sym, some, [], ◌∷◌, ◌++◌, length,
  length-append, ltb, ◌==◌, is_empty, ok, arith, ◌^◌, not, ◌&&◌, All, All-append, All-map,
}
use earl.Text.{
  Text, codes, bytes, is_blank, trim, trim_start_matches, trim_end_matches, is_whitespace,
}
use mathlib.Core.List.{append_assoc}
use earl.Text.Laws.{is_blank-cons}
use earl.Text.Utf8.{Ascii, bytes-Ascii, from_utf8-Ascii}
use earl.Text.Decimal.{decimal, is_digit, decimal-Digits, parse_usize-decimal}
use earl.Mcp.Frames.{
  Bytes, max_frame_size, split_line, read_line, skip_headers, read_exact, parse_content_length,
  read_body, frame_at, read_from, read_stdio_frame, write_stdio_frame,
}

abbrev NoFeed : Bytes → Type 0
NoFeed s = All (λ b. (b == 10) ≡ false) s

split_line-append : (s rest : Bytes) → NoFeed s → split_line (s ++ 10 ∷ rest) ≡ (s ++ 10 ∷ [], rest)
unfolding split_line
split_line-append [] rest h = refl
split_line-append (b ∷ s) rest (p, h) = rw (p, split_line-append s rest h)

read_line-append :
    (s rest : Bytes)
    → NoFeed s
    → Ascii (s ++ 10 ∷ [])
    → read_line (s ++ 10 ∷ rest) ≡ ok (s ++ 10 ∷ [], rest)
unfolding read_line
read_line-append s rest h plain =
    rw (split_line-append s rest h, from_utf8-Ascii (s ++ 10 ∷ []) plain)

read_exact-append : (body rest : Bytes) → read_exact (length body) (body ++ rest) ≡ ok (body, rest)
unfolding read_exact
read_exact-append [] rest = refl
read_exact-append (b ∷ body) rest = rw (read_exact-append body rest)

trim_end_matches-all :
    (p : ℕ → Bool) (t : Text) → All (λ c. p c ≡ true) t → trim_end_matches p t ≡ []
unfolding trim_end_matches
trim_end_matches-all p [] h = refl
trim_end_matches-all p (c ∷ t) (q, h) = rw (trim_end_matches-all p t h, q)

trim_end_matches-append :
    (p : ℕ → Bool) (s t : Text)
    → All (λ c. p c ≡ false) s
    → All (λ c. p c ≡ true) t
    → trim_end_matches p (s ++ t) ≡ s
unfolding trim_end_matches
trim_end_matches-append p [] t h k = trim_end_matches-all p t k
trim_end_matches-append p (c ∷ []) t (q, h) k = rw (trim_end_matches-all p t k, q)
trim_end_matches-append p (c ∷ d ∷ s) t (q, h) k = rw (trim_end_matches-append p (d ∷ s) t h k)

trim_start-none :
    (s t : Text)
    → All (λ c. is_whitespace c ≡ false) s
    → All (λ c. is_whitespace c ≡ true) t
    → trim_end_matches is_whitespace (trim_start_matches is_whitespace (s ++ t)) ≡ s
unfolding trim_start_matches
trim_start-none [] [] h k = trim_end_matches-all is_whitespace [] tt
trim_start-none [] (c ∷ t) (h) (q, k) = rw q (trim_start-none [] t tt k)
trim_start-none (c ∷ s) t (q, h) k = rw q (trim_end_matches-append is_whitespace (c ∷ s) t (q, h) k)

digit_visible : (c : ℕ) → is_digit c ≡ true → is_whitespace c ≡ false
digit_visible c h = ground arith

digit_plain : (c : ℕ) → is_digit c ≡ true → (ltb c 128 && not (c == 10)) ≡ true
digit_plain c h = ground arith

plain_no_feed : (c : ℕ) → (ltb c 128 && not (c == 10)) ≡ true → (c == 10) ≡ false
plain_no_feed c h = ground arith

plain_ascii : (c : ℕ) → (ltb c 128 && not (c == 10)) ≡ true → c < 128
plain_ascii c h = ground arith

-- The numeral between the space and the end of the line.
trim-numeral : (n : ℕ) → trim (32 ∷ (decimal n ++ 13 ∷ 10 ∷ [])) ≡ decimal n
unfolding trim trim_start_matches
trim-numeral n =
    trim_start-none (decimal n) (13 ∷ 10 ∷ [])
      (All-map _ _ (decimal n) digit_visible (decimal-Digits n)) (refl, (refl, tt))

parse_content_length-header :
    (n : ℕ)
    → n < 2 ^ 64
    → parse_content_length (codes "Content-Length: " ++ (decimal n ++ 13 ∷ 10 ∷ [])) ≡ ok (some n)
unfolding parse_content_length
parse_content_length-header n fits = rw (trim-numeral n, parse_usize-decimal n fits)

-- A character of the header, which is ASCII and no line feed.
abbrev Plain : Text → Type 0
Plain s = All (λ c. (ltb c 128 && not (c == 10)) ≡ true) s

header : ℕ → Text
header n = codes "Content-Length: " ++ (decimal n ++ 13 ∷ [])

header-Plain : (n : ℕ) → Plain (header n)
unfolding header
header-Plain n =
    All-append (λ c. (ltb c 128 && not (c == 10)) ≡ true) (codes "Content-Length: ")
      (decimal n ++ 13 ∷ [])
      ((
        refl,
        (
          refl,
          (
            refl,
            (
              refl,
              (
                refl,
                (
                  refl,
                  (
                    refl,
                    (refl, (refl, (refl, (refl, (refl, (refl, (refl, (refl, (refl, tt))))))))),
                  ),
                ),
              ),
            ),
          ),
        ),
      ))
      (All-append (λ c. (ltb c 128 && not (c == 10)) ≡ true) (decimal n) (13 ∷ [])
        (All-map _ _ (decimal n) digit_plain (decimal-Digits n)) (refl, tt))

header_line :
    (n : ℕ) (rest : Bytes)
    → codes "Content-Length: " ++ (decimal n ++ 13 ∷ 10 ∷ rest) ≡ header n ++ 10 ∷ rest
unfolding header
header_line n rest =
    sym (ap (λ s. codes "Content-Length: " ++ s) (append_assoc (decimal n) (13 ∷ []) (10 ∷ rest)))

read_body-written :
    (body rest : Bytes)
    → length body ≤ max_frame_size
    → read_body (length body) (13 ∷ 10 ∷ (body ++ rest)) ≡ ok (some body, rest)
unfolding read_body skip_headers
read_body-written body rest small =
    let fits : ltb max_frame_size (length body) ≡ false = ground arith in
    rw (fits, read_exact-append body rest)

read_line-header :
    (n : ℕ) (rest : Bytes) → read_line (header n ++ 10 ∷ rest) ≡ ok (header n ++ 10 ∷ [], rest)
read_line-header n rest =
    read_line-append (header n) rest (All-map _ _ (header n) plain_no_feed (header-Plain n)) (
      All-append (λ c. c < 128) (header n) (10 ∷ [])
        (All-map _ _ (header n) plain_ascii (header-Plain n)) (omega arith, tt))

frame_at-length :
    (line : Text) (n : ℕ) (rest : Bytes)
    → parse_content_length line ≡ ok (some n)
    → frame_at line rest ≡ read_body n rest
unfolding frame_at
frame_at-length line n rest h = rw (h, frame_at)

read_from-line :
    (fuel : ℕ) (reader rest : Bytes) (line : Text)
    → is_empty reader ≡ false
    → read_line reader ≡ ok (line, rest)
    → is_blank line ≡ false
    → read_from (suc fuel) reader ≡ frame_at line rest
unfolding read_from
read_from-line fuel reader rest line more h visible = rw (h, read_from, more, visible)

header_front : (n : ℕ) (rest : Bytes) → is_empty (header n ++ rest) ≡ false
unfolding header
header_front n rest = refl

header-is_blank : (n : ℕ) (rest : Bytes) → is_blank (header n ++ rest) ≡ false
unfolding header
header-is_blank n rest = is_blank-cons _ _ refl

-- The length in the header, as the reader finds it.
header_length : (n : ℕ) → n < 2 ^ 64 → parse_content_length (header n ++ 10 ∷ []) ≡ ok (some n)
header_length n fits =
    ap parse_content_length (sym (header_line n [])) ∙ parse_content_length-header n fits

read_from-header :
    (fuel : ℕ) (body rest : Bytes)
    → length body ≤ max_frame_size
    → read_from (suc fuel) (header (length body) ++ 10 ∷ 13 ∷ 10 ∷ (body ++ rest))
      ≡ ok (some body, rest)
read_from-header fuel body rest small =
    let n = length body in
    let reader = header n ++ 10 ∷ 13 ∷ 10 ∷ (body ++ rest) in
    read_from-line fuel reader (13 ∷ 10 ∷ (body ++ rest)) (header n ++ 10 ∷ [])
      (header_front n (10 ∷ 13 ∷ 10 ∷ (body ++ rest)))
      (read_line-header n (13 ∷ 10 ∷ (body ++ rest))) (header-is_blank n (10 ∷ []))
    ∙ frame_at-length (header n ++ 10 ∷ []) n (13 ∷ 10 ∷ (body ++ rest))
        (header_length n (ground arith))
    ∙ read_body-written body rest small

-- The bytes of a frame.
write_stdio_frame-eq :
    (body rest : Bytes)
    → write_stdio_frame body ++ rest ≡ header (length body) ++ 10 ∷ 13 ∷ 10 ∷ (body ++ rest)
unfolding write_stdio_frame
write_stdio_frame-eq body rest =
    let n = length body in
    let top = header n ++ 10 ∷ 13 ∷ 10 ∷ [] in
    let plain =
      All-append (λ c. c < 128) (header n) (10 ∷ 13 ∷ 10 ∷ [])
        (All-map _ _ (header n) plain_ascii (header-Plain n))
        (omega arith, (omega arith, (omega arith, tt))) in
    ap (λ t. (bytes t ++ body) ++ rest) (header_line n (13 ∷ 10 ∷ []))
    ∙ ap (λ t. (t ++ body) ++ rest) (bytes-Ascii top plain)
    ∙ append_assoc top body rest
    ∙ append_assoc (header n) (10 ∷ 13 ∷ 10 ∷ []) (body ++ rest)

-- A frame with a body of at most 10 MiB that is written is read back, whatever follows it.
pub read_stdio_frame-write :
    (body rest : Bytes)
    → length body ≤ max_frame_size
    → read_stdio_frame (write_stdio_frame body ++ rest) ≡ ok (some body, rest)
unfolding read_stdio_frame
read_stdio_frame-write body rest small =
    ap (λ r. read_from (suc (length r)) r) (write_stdio_frame-eq body rest)
    ∙ read_from-header _ body rest small

-- A frame has more bytes than its body.
pub length-write : (body rest : Bytes) → length rest < length (write_stdio_frame body ++ rest)
length-write body rest =
    let n = length body in
    let behind = length-append (header n) (10 ∷ 13 ∷ 10 ∷ (body ++ rest)) in
    let last = length-append body rest in
    let whole : length (write_stdio_frame body ++ rest)
        ≡ length (header n ++ 10 ∷ 13 ∷ 10 ∷ (body ++ rest)) =
      ap length (write_stdio_frame-eq body rest) in
    omega arith

-- ===== src/Text/Decimal.antt =====
-- Decimal numerals: `to_string` of an unsigned integer and `parse::<usize>`.
use earl.Prelude.{
  ℕ, zero, suc, ◌+◌, ◌-◌, ◌*◌, ◌/◌, ◌%◌, ◌^◌, ◌<◌, ◌≤◌, Bool, true, not, ◌≡◌, Option, none, some,
  [], ◌∷◌, ◌++◌, ltb, within, ◌==◌, length, length-append, if◌then◌else◌, is_empty, arith, inl, inr,
  Bool-cases, All, All-append,
}
use earl.Text.{Text}

-- The digits of a number, on fuel.
unfoldable pub digits : ℕ → ℕ → Text
digits zero n = []
digits (suc fuel) n =
    let front = digits fuel (n / 10) in
    if ltb n 10 then (b'0' + n) ∷ [] else front ++ (b'0' + n % 10) ∷ []

unfoldable pub decimal : ℕ → Text
unfolding digits
decimal n = digits (suc n) n

abbrev pub is_digit : ℕ → Bool
is_digit c = within b'0' b'9' c

-- The value of digits behind those read so far; `none` at another character or past `usize`.
unfoldable pub parse_digits : ℕ → Text → Option ℕ
parse_digits acc [] = some acc
parse_digits acc (c ∷ s) =
    let next = acc * 10 + (c - b'0') in
    let rest = parse_digits next s in
    if not (is_digit c) then none else if ltb next (2 ^ 64) then rest else none

-- A plus sign may stand in front, and one digit is needed.
unfoldable pub parse_usize : Text → Option ℕ
unfolding parse_digits
parse_usize [] = none
parse_usize (c ∷ s) =
    if c == b'+' then (if is_empty s then none else parse_digits 0 s) else parse_digits 0 (c ∷ s)

abbrev pub Digits : Text → Type 0
Digits s = All (λ c. is_digit c ≡ true) s

digits-Digits : (fuel n : ℕ) → Digits (digits fuel n)
unfolding digits
digits-Digits zero n = tt
digits-Digits (suc fuel) n = elim (Bool-cases (ltb n 10)) [
  | inl small ↦ rw small (ground arith, tt)
  | inr large ↦ rw large (
      All-append (λ c. is_digit c ≡ true) (digits fuel (n / 10)) ((b'0' + n % 10) ∷ [])
        (digits-Digits fuel (n / 10)) (ground arith, tt))
]

pub decimal-Digits : (n : ℕ) → Digits (decimal n)
unfolding decimal
decimal-Digits n = digits-Digits (suc n) n

parse_digits-snoc :
    (acc v d : ℕ) (s : Text)
    → parse_digits acc s ≡ some v
    → d < 10
    → v * 10 + d < 2 ^ 64
    → parse_digits acc (s ++ (b'0' + d) ∷ []) ≡ some (v * 10 + d)
unfolding parse_digits
parse_digits-snoc acc v d [] h small fits = ground arith
parse_digits-snoc acc v d (c ∷ s) h small fits =
    ground (arith, parse_digits-snoc (acc * 10 + (c - b'0')) v d s)

parse_digits-digits : (fuel n : ℕ) → n < fuel → n < 2 ^ 64 → parse_digits 0 (digits fuel n) ≡ some n
unfolding digits parse_digits
parse_digits-digits zero n h fits = absurd (omega arith)
parse_digits-digits (suc fuel) n h fits = elim (Bool-cases (ltb n 10)) [
  | inl small ↦ rw small (ground arith)
  | inr large ↦
      (let back =
          parse_digits-snoc 0 (n / 10) (n % 10) (digits fuel (n / 10))
            (parse_digits-digits fuel (n / 10) (ground arith) (ground arith)) (ground arith)
            (ground arith) in
        rw large (ground arith))
]

length-digits : (fuel n : ℕ) → 1 ≤ length (digits (suc fuel) n)
unfolding digits
length-digits fuel n = elim (Bool-cases (ltb n 10)) [
  | inl small ↦ rw small (omega arith)
  | inr large ↦
      rw large (omega (arith, length-append (digits fuel (n / 10)) ((b'0' + n % 10) ∷ [])))
]

parse_usize-parse_digits :
    (s : Text) (n : ℕ)
    → Digits s
    → 1 ≤ length s
    → parse_digits 0 s ≡ some n
    → parse_usize s ≡ some n
unfolding parse_usize
parse_usize-parse_digits [] n d long h = absurd (omega arith)
parse_usize-parse_digits (c ∷ s) n (first, d) long h = ground arith

-- A number below 2 ^ 64 is read back from its numeral.
pub parse_usize-decimal : (n : ℕ) → n < 2 ^ 64 → parse_usize (decimal n) ≡ some n
unfolding decimal
parse_usize-decimal n fits =
    parse_usize-parse_digits (decimal n) n (decimal-Digits n) (length-digits n n)
      (parse_digits-digits (suc n) n (omega arith) fits)

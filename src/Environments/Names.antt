-- ===== src/Environments/Names.antt =====
-- Which names `validate_env_name` of src/template/environments.rs accepts.
use earl.Prelude.{
  inl, inr, Bool-cases, ℕ, ◌≤◌, ◌<◌, true, ◌≡◌, refl, ◌≢◌, ◌↔◌, ◌⊎◌, [], ◌∷◌, arith, All, All-map,
  all, all_iff, is_empty, ok, length,
}
use earl.Text.{Text, len}
use earl.Text.Laws.{len-ascii}
use earl.Environments.{validate_env_name, is_name_char}

-- One character of a name: an ASCII letter or digit, an underscore or a hyphen.
abbrev pub NameChar : ℕ → Type 0
NameChar c =
    ((b'0' ≤ c) × (c ≤ b'9'))
    ⊎ ((b'A' ≤ c) × (c ≤ b'Z'))
    ⊎ ((b'a' ≤ c) × (c ≤ b'z'))
    ⊎ (c ≡ b'_')
    ⊎ (c ≡ b'-')

is_name_char_iff : (c : ℕ) → (is_name_char c ≡ true) ↔ NameChar c
is_name_char_iff c = ground arith

NameChar-ascii : (c : ℕ) → NameChar c → c < 128
NameChar-ascii c h = ground arith

all_name_chars : (name : Text) → (all is_name_char name ≡ true) ↔ All NameChar name
all_name_chars name =
    let (to, from) = all_iff is_name_char name in
    (
      λ h. All-map _ _ name (λ c. (is_name_char_iff c).0) (to h),
      λ h. from (All-map _ _ name (λ c. (is_name_char_iff c).1) h),
    )

len-name : (name : Text) → All NameChar name → len name ≡ length name
len-name name h = len-ascii name (All-map NameChar _ name NameChar-ascii h)

is_empty_iff : (name : Text) → (is_empty name ≡ true) ↔ (name ≡ [])
is_empty_iff [] = (λ _. refl, λ _. refl)
is_empty_iff (c ∷ s) = (λ h. cc, λ h. cc)

-- A name is accepted exactly when it has 1 to 64 characters, each an ASCII letter or digit, an
-- underscore or a hyphen; so it holds no dot and no path separator.
validate_env_name_iff :
    (name : Text)
    → (validate_env_name name ≡ ok tt) ↔ ((name ≢ []) × (length name ≤ 64) × All NameChar name)
unfolding validate_env_name
validate_env_name_iff name =
    let (to, from) = all_name_chars name in
    let (empty_to, empty_from) = is_empty_iff name in
    (
      λ h.
          let chars = to (ground arith) in
          let count = len-name name chars in
          (λ e. (let y = empty_from e in ground arith), ground arith, chars),
      λ (e, n, chars).
          let count = len-name name chars in
          let good = from chars in
          elim (Bool-cases (is_empty name)) [
            | inl y ↦ absurd (e (empty_to y))
            | inr y ↦ ground arith
          ],
    )

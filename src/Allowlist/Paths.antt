-- ===== src/Allowlist/Paths.antt =====
-- Path prefixes of crates/earl-core/src/allowlist.rs end at a segment boundary.
use earl.Prelude.{true, ◌≡◌, ◌∙◌, ◌↔◌, ◌⊎◌, inl, inr, ◌∷◌, ◌++◌, arith, Bool-cases}
use mathlib.Core.List.{append_assoc}
use earl.Text.{Text, codes, text_eq, starts_with}
use earl.Text.Laws.{text_eq_iff, starts_with-append, starts_with_inv}
use earl.Allowlist.{normalize_path, path_prefix_matches}

-- One path covers another: it is the root, the same path, or a proper ancestor at a slash.
abbrev pub Covers : Text → Text → Type 0
Covers prefix path =
    (prefix ≡ codes "/") ⊎ (path ≡ prefix) ⊎ ((rest : Text) × (path ≡ prefix ++ b'/' ∷ rest))

covers_below :
    (prefix path : Text)
    → starts_with (prefix ++ codes "/") path ≡ true
    → (rest : Text) × (path ≡ prefix ++ b'/' ∷ rest)
covers_below prefix path h =
    let (rest, e) = starts_with_inv (prefix ++ codes "/") path h in
    (rest, e ∙ append_assoc prefix (codes "/") rest)

below_covers :
    (prefix rest : Text) → starts_with (prefix ++ codes "/") (prefix ++ b'/' ∷ rest) ≡ true
below_covers prefix rest =
    rw (← append_assoc prefix (codes "/") rest) (starts_with-append (prefix ++ codes "/") rest)

admitted_below :
    (path prefix : Text)
    → (rest : Text) × (path ≡ prefix ++ b'/' ∷ rest)
    → starts_with (prefix ++ codes "/") path ≡ true
admitted_below path prefix (rest, e) = rw e (below_covers prefix rest)

-- A rule's prefix admits a path exactly when, both normalised, the prefix is the root, is the path,
-- or is followed in the path by a slash: "/api" and "/api/" admit "/api" and "/api/users" and never
-- "/apiary".
pub path_prefix_matches_iff :
    (path prefix : Text)
    → (path_prefix_matches path prefix ≡ true)
      ↔ Covers (normalize_path prefix) (normalize_path path)
unfolding path_prefix_matches
path_prefix_matches_iff path prefix =
    elim (Bool-cases (text_eq (normalize_path prefix) (codes "/"))) [
      | inl root ↦ (λ _. inl ((text_eq_iff _ _).0 root), λ _. ground arith)
      | inr other ↦ elim (Bool-cases (text_eq (normalize_path path) (normalize_path prefix))) [
        | inl same ↦ (λ _. inr (inl ((text_eq_iff _ _).0 same)), λ _. ground arith)
        | inr differ ↦ (
          λ h. inr (inr (covers_below _ _ (ground arith))),
          elim [
            | inl root ↦ (let e = (text_eq_iff _ _).1 root in cc)
            | inr (inl same) ↦ (let e = (text_eq_iff _ _).1 same in cc)
            | inr (inr below) ↦ (let e = admitted_below _ _ below in ground arith)
          ],
        )
      ]
    ]

-- ===== src/Allowlist/Rules.antt =====
-- The decision of `ensure_url_allowed` in crates/earl-core/src/allowlist.rs.
use earl.Prelude.{
  some_and, Bool, true, ◌≡◌, refl, ◌≢◌, ◌↔◌, ◌⊎◌, inl, inr, Option, none, some, List, [], ◌∷◌,
  arith, any_iff, Any-map, Any, ok, ◌==◌,
}
use earl.Text.{Text, eq_ignore_ascii_case, to_ascii_lowercase}
use earl.Text.Laws.{text_eq_iff}
use earl.Allowlist.{AllowRule, Url, normalize_path, matches_rule, ensure_url_allowed}
use earl.Allowlist.Paths.{Covers, path_prefix_matches_iff}

-- Equal up to the case of ASCII letters.
abbrev pub SameIgnoringCase : Text → Text → Type 0
SameIgnoringCase s t = to_ascii_lowercase s ≡ to_ascii_lowercase t

-- A rule fits a URL: all four parts do, and a URL without a host or a port fits none.
pub record Fits (url : Url) (rule : AllowRule) : Type 0 where
  pub scheme : SameIgnoringCase url.scheme rule.scheme
  pub host : (h : Text) × (url.host_str ≡ some h) × SameIgnoringCase h rule.host
  pub port : url.port_or_known_default ≡ some rule.port
  pub path : Covers (normalize_path rule.path_prefix) (normalize_path url.path)

some_and_inv {ℓ} :
    {A : Type ℓ} (p : A → Bool) (o : Option A)
    → some_and p o ≡ true
    → (a : A) × (o ≡ some a) × (p a ≡ true)
some_and_inv p none h = cc
some_and_inv p (some a) h = (a, refl, h)

eq_ignore_case_iff : (s t : Text) → (eq_ignore_ascii_case s t ≡ true) ↔ SameIgnoringCase s t
unfolding eq_ignore_ascii_case
eq_ignore_case_iff s t = text_eq_iff (to_ascii_lowercase s) (to_ascii_lowercase t)

matches_rule-Fits : (url : Url) (rule : AllowRule) → matches_rule url rule ≡ true → Fits url rule
unfolding matches_rule
matches_rule-Fits url rule h =
    let (host, here, same) =
      some_and_inv (λ host. eq_ignore_ascii_case host rule.host) url.host_str (ground arith) in
    let (port, known, equal) =
      some_and_inv (λ port. port == rule.port) url.port_or_known_default (ground arith) in
    record {
      scheme = (eq_ignore_case_iff url.scheme rule.scheme).0 (ground arith);
      host = (host, here, (eq_ignore_case_iff host rule.host).0 same);
      port = ground arith;
      path = (path_prefix_matches_iff url.path rule.path_prefix).0 (ground arith);
    }

Fits-matches_rule : (url : Url) (rule : AllowRule) → Fits url rule → matches_rule url rule ≡ true
unfolding matches_rule
Fits-matches_rule url rule f =
    let (h, here, same) = f.host in
    let scheme = (eq_ignore_case_iff url.scheme rule.scheme).1 f.scheme in
    let host = (eq_ignore_case_iff h rule.host).1 same in
    let path = (path_prefix_matches_iff url.path rule.path_prefix).1 f.path in
    let port = f.port in ground arith

-- A URL is let through exactly when the list is empty or one of its rules fits all four parts:
-- the scheme and the host up to case, the port, and the path, at or below the prefix, whose slashes at the
-- end do not count.
pub ensure_url_allowed_iff :
    (url : Url) (rules : List AllowRule)
    → (ensure_url_allowed url rules ≡ ok tt) ↔ ((rules ≡ []) ⊎ Any (Fits url) rules)
unfolding ensure_url_allowed
ensure_url_allowed_iff url [] = (λ _. inl refl, λ _. refl)
ensure_url_allowed_iff url (rule ∷ rules) =
    let (to, from) = any_iff (λ r. matches_rule url r) (rule ∷ rules) in
    (
      λ h. inr (Any-map _ _ (rule ∷ rules) (matches_rule-Fits url) (to (ground arith))),
      elim [
        | inl e ↦ absurd (cons-ne-nil e)
        | inr a ↦
            (let e = from (Any-map _ _ (rule ∷ rules) (Fits-matches_rule url) a) in ground arith)
      ],
    )
  where
    cons-ne-nil : (rule ∷ rules) ≢ []
    cons-ne-nil e = cc

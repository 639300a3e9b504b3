-- ===== src/Allowlist.antt =====
-- The allowlist of outgoing URLs: crates/earl-core/src/allowlist.rs, with `AllowRule` of
-- crates/earl-core/src/schema.rs. A parsed `Url` of the `url` crate is the record of the four parts
-- that the code reads; a port without a known default is `none`.
pub mod Paths
pub mod Rules
mod Tests
use earl.Prelude.{
  some_and, ℕ, Bool, true, false, ◌&&◌, ◌||◌, Option, none, some, List, [], ◌∷◌, ◌++◌, ◌<◌, ltb,
  ◌==◌, if◌then◌else◌, any, is_empty, Result, ok, err,
}
use earl.Text.{Text, codes, len, text_eq, eq_ignore_ascii_case, trim, trim_end_matches, starts_with}

pub record AllowRule : Type 0 where
  pub scheme : Text
  pub host : Text
  pub port : ℕ
  pub path_prefix : Text

pub record Url : Type 0 where
  pub scheme : Text
  pub host_str : Option Text
  pub port_or_known_default : Option ℕ
  pub path : Text

abbrev pub is_slash : ℕ → Bool
is_slash c = c == b'/'

unfoldable pub normalize_path : Text → Text
unfolding trim starts_with len trim_end_matches
normalize_path path =
    let trimmed = trim path in
    let with_leading = if starts_with (codes "/") trimmed then trimmed else b'/' ∷ trimmed in
    if ltb 1 (len with_leading) then trim_end_matches is_slash with_leading else codes "/"

unfoldable pub path_prefix_matches : Text → Text → Bool
unfolding normalize_path text_eq starts_with
path_prefix_matches path prefix =
    let normalized_path = normalize_path path in
    let normalized_prefix = normalize_path prefix in
    if text_eq normalized_prefix (codes "/")
    then true
    else text_eq normalized_path normalized_prefix
      || starts_with (normalized_prefix ++ codes "/") normalized_path

unfoldable pub matches_rule : Url → AllowRule → Bool
unfolding eq_ignore_ascii_case path_prefix_matches
matches_rule url rule =
    let scheme_match = eq_ignore_ascii_case url.scheme rule.scheme in
    let host_match = some_and (λ host. eq_ignore_ascii_case host rule.host) url.host_str in
    let port_match = some_and (λ port. port == rule.port) url.port_or_known_default in
    let path_match = path_prefix_matches url.path rule.path_prefix in
    scheme_match && host_match && port_match && path_match

pub data AllowlistError : Type 0 where
  not_allowed : Url → AllowlistError

unfoldable pub ensure_url_allowed : Url → List AllowRule → Result AllowlistError (Unit {0})
unfolding matches_rule any
ensure_url_allowed url allow_rules =
    if is_empty allow_rules
    then ok tt
    else if any (λ rule. matches_rule url rule) allow_rules
    then ok tt
    else err (not_allowed url)

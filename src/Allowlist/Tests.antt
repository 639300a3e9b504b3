-- ===== src/Allowlist/Tests.antt =====
-- URLs of crates/earl-core/src/allowlist.rs and instances of the theorems.
use earl.Prelude.{true, false, ◌≡◌, refl, ◌↔◌, ◌⊎◌, some, [], ◌∷◌, Any, ok, err}
use earl.Text.{Text, codes}
use earl.Allowlist.{
  AllowRule, Url, normalize_path, path_prefix_matches, not_allowed, ensure_url_allowed,
}
use earl.Allowlist.Paths.{Covers, path_prefix_matches_iff}
use earl.Allowlist.Rules.{Fits, ensure_url_allowed_iff}

abbrev api_rule : AllowRule
api_rule = record {
  scheme = codes "https";
  host = codes "api.example.com";
  port = 443;
  path_prefix = codes "/api/";
}

abbrev url : Text → Url
url path = record {
  scheme = codes "https";
  host_str = some (codes "API.example.com");
  port_or_known_default = some 443;
  path = path;
}

prefix_tests :
    (path_prefix_matches (codes "/api/users") (codes "/api") ≡ true)
    × (path_prefix_matches (codes "/apiary") (codes "/api") ≡ false)
    × (path_prefix_matches (codes "/api") (codes " api/ ") ≡ true)
    × (normalize_path (codes "//") ≡ [])
unfolding path_prefix_matches
prefix_tests = (refl, refl, refl, refl)

allowed_tests :
    (ensure_url_allowed (url (codes "/api/users")) (api_rule ∷ []) ≡ ok tt)
    × (ensure_url_allowed (url (codes "/apiary")) (api_rule ∷ [])
        ≡ err (not_allowed (url (codes "/apiary"))))
unfolding ensure_url_allowed
allowed_tests = (refl, refl)

path_prefix_matches_iff_example :
    (path_prefix_matches (codes "/apiary") (codes "/api/") ≡ true)
    ↔ Covers (normalize_path (codes "/api/")) (normalize_path (codes "/apiary"))
path_prefix_matches_iff_example = path_prefix_matches_iff (codes "/apiary") (codes "/api/")

ensure_url_allowed_iff_example :
    (ensure_url_allowed (url (codes "/api/users")) (api_rule ∷ []) ≡ ok tt)
    ↔ ((api_rule ∷ [] ≡ []) ⊎ Any (Fits (url (codes "/api/users"))) (api_rule ∷ []))
ensure_url_allowed_iff_example = ensure_url_allowed_iff (url (codes "/api/users")) (api_rule ∷ [])

-- ===== src/Secrets/Tests.antt =====
-- A resolver that fails twice for src/secrets/store.rs, and instances of the theorems.
use earl.Prelude.{
  ◌≤◌, true, false, ◌≡◌, refl, some, Option, [], ◌∷◌, length, ltb, if◌then◌else◌, ok, err,
}
use earl.Text.{Text, codes}
use earl.Secrets.{
  SecretResolver, SecretError, SecretIndex, InMemorySecretStore, upsert_metadata, set_secret,
  get_secret, delete_secret, require_secret,
}
use earl.Secrets.Attempts.{is_panic, IsOrigin, require_secret-IsOrigin}

abbrev resolver : SecretResolver
resolver = record {
  scheme = codes "op";
  resolve = λ attempt key. (if ltb attempt 3 then err (codes "http 503") else ok (codes "s3"));
}

abbrev store : InMemorySecretStore
store = (codes "a", codes "x") ∷ []

abbrev index : SecretIndex
index = (codes "a", record { key = codes "a"; created_at = 1; updated_at = 1 }) ∷ []

abbrev get_secret_of : Text → Option (Option Text)
get_secret_of key = some (get_secret store key)

secret_tests :
    (require_secret get_secret_of (resolver ∷ []) (codes "op://v/i")
      ≡ (500 ∷ 1000 ∷ [], ok (codes "s3")))
    × (require_secret get_secret_of [] (codes "op://v/i")
        ≡ ([], err (SecretError.no_resolver (codes "op"))))
    × (require_secret get_secret_of (resolver ∷ []) (codes "b")
        ≡ ([], err (SecretError.missing (codes "b"))))
    × (delete_secret (codes "a") (set_secret (codes "b") (codes "y") store)
        ≡ (true, (codes "b", codes "y") ∷ []))
    × (upsert_metadata 7 (codes "a") index
        ≡ (codes "a", record { key = codes "a"; created_at = 1; updated_at = 7 }) ∷ [])
unfolding require_secret get_secret set_secret delete_secret upsert_metadata
secret_tests = (refl, refl, refl, refl, refl)

require_secret-IsOrigin_example :
    (length (require_secret get_secret_of (resolver ∷ []) (codes "op://v/i")).0 ≤ 2)
    × (is_panic (require_secret get_secret_of (resolver ∷ []) (codes "op://v/i")).1 ≡ false)
    × ((secret : Text)
        → (require_secret get_secret_of (resolver ∷ []) (codes "op://v/i")).1 ≡ ok secret
        → IsOrigin
            (codes "op://v/i")
            get_secret_of
            (resolver ∷ [])
            secret
            (length (require_secret get_secret_of (resolver ∷ []) (codes "op://v/i")).0))
require_secret-IsOrigin_example =
    require_secret-IsOrigin get_secret_of (resolver ∷ []) (codes "op://v/i")

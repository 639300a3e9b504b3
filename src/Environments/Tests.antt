-- ===== src/Environments/Tests.antt =====
-- Names of src/template/environments.rs, after its own tests, and an instance of the theorem.
use earl.Prelude.{◌≡◌, refl, none, some, [], ok, err, replicate}
use earl.Text.{codes}
use earl.Environments.{resolve_active_env, bad_length, bad_characters, validate_env_name}

resolve_tests :
    (resolve_active_env (some (codes "staging")) (some (codes "prod")) (some (codes "dev"))
      ≡ some (codes "staging"))
    × (resolve_active_env none (some (codes "prod")) (some (codes "dev")) ≡ some (codes "prod"))
    × (resolve_active_env none none (some (codes "dev")) ≡ some (codes "dev"))
    × (resolve_active_env none none none ≡ none)
unfolding resolve_active_env
resolve_tests = (refl, refl, refl, refl)

name_tests :
    (validate_env_name (codes "dev_local-2") ≡ ok tt)
    × (validate_env_name [] ≡ err (bad_length []))
    × (validate_env_name (codes "../etc/passwd") ≡ err (bad_characters (codes "../etc/passwd")))
    × (validate_env_name (replicate 65 b'a') ≡ err (bad_length (replicate 65 b'a')))
unfolding validate_env_name
name_tests = (refl, refl, refl, refl)

-- ===== src/Secrets.antt =====
-- Secrets: src/secrets/store.rs. An instant is a number; a store that is locked by a thread which failed is
-- left out. What a resolver of an external store answers may depend on the attempt.
pub mod Attempts
mod Tests
use earl.Prelude.{
  ℕ, zero, suc, ◌+◌, ◌*◌, Bool, true, false, ◌&&◌, ◌||◌, Option, none, some, List, [], ◌∷◌, any,
  ltb, is_some, if◌then◌else◌, Result, ok, err, or_fail,
}
use earl.Text.{Text, codes, text_eq, contains, split_once}
use earl.Text.Keys.{Map, lookup, insert}

pub record SecretMetadata : Type 0 where
  pub key : Text
  pub created_at : ℕ
  pub updated_at : ℕ

abbrev pub SecretIndex : Type 0
SecretIndex = Map SecretMetadata

module _ {V : Type 0} where
  -- `remove` of a map.
  unfoldable pub remove_key : Text → Map V → Map V
  unfolding text_eq
  remove_key key [] = []
  remove_key key ((k, v) ∷ more) =
      let rest = remove_key key more in if text_eq key k then more else (k, v) ∷ rest

unfoldable pub upsert_metadata : ℕ → Text → SecretIndex → SecretIndex
unfolding lookup insert
upsert_metadata now key index = elim (lookup key index) [
  | none ↦ insert key (record { key = key; created_at = now; updated_at = now }) index
  | some meta ↦
      insert key (record { key = meta.key; created_at = meta.created_at; updated_at = now }) index
]

-- The values of `InMemorySecretStore`.
abbrev pub InMemorySecretStore : Type 0
InMemorySecretStore = Map Text

unfoldable pub set_secret : Text → Text → InMemorySecretStore → InMemorySecretStore
unfolding insert
set_secret key secret values = insert key secret values

unfoldable pub get_secret : InMemorySecretStore → Text → Option Text
unfolding lookup
get_secret values key = lookup key values

-- Whether the key was there, and the values without it.
unfoldable pub delete_secret : Text → InMemorySecretStore → Bool × InMemorySecretStore
unfolding lookup remove_key
delete_secret key values = (is_some (lookup key values), remove_key key values)

abbrev pub transient_words : List Text
transient_words =
    codes "timeout"
    ∷ codes "timed out"
    ∷ codes "connection reset"
    ∷ codes "connection refused"
    ∷ codes "broken pipe"
    ∷ codes "http 500"
    ∷ codes "http 502"
    ∷ codes "http 503"
    ∷ codes "http 504"
    ∷ codes "http 429"
    ∷ codes "status code 500"
    ∷ codes "status code 502"
    ∷ codes "status code 503"
    ∷ codes "status code 504"
    ∷ codes "status code 429"
    ∷ []

-- The message is in lower case already.
unfoldable pub is_transient : Text → Bool
unfolding contains any
is_transient msg = any (λ word. contains msg word) transient_words

-- `resolve` by the attempt and the key; an error is its message in lower case.
pub record SecretResolver : Type 0 where
  pub scheme : Text
  pub resolve : ℕ → Text → Result Text Text

-- `unreachable` is the panic behind the loop.
pub data SecretError : Type 0 where
  unresolved no_resolver missing : Text → SecretError
  store_failed unreachable : SecretError

abbrev pub max_attempts : ℕ
max_attempts = 3

abbrev pub backoff_base : ℕ
backoff_base = 500

-- The waits between the attempts, in milliseconds, and the result.
abbrev pub Resolution : Type 0
Resolution = List ℕ × Result SecretError Text

-- The loop over the attempts from one on, for the rounds that are left.
unfoldable pub resolve_from : SecretResolver → Text → ℕ → ℕ → Resolution
unfolding is_transient
resolve_from resolver key zero attempt = ([], err SecretError.unreachable)
resolve_from resolver key (suc rounds) attempt =
    let (sleeps, result) = resolve_from resolver key rounds (attempt + 1) in
    elim (resolver.resolve attempt key) [
      | ok secret ↦ ([], ok secret)
      | err msg ↦
          (if ltb attempt max_attempts && is_transient msg
            then (backoff_base * attempt ∷ sleeps, result)
            else ([], err (SecretError.unresolved msg)))
    ]

unfoldable pub resolve_attempts : SecretResolver → Text → Resolution
unfolding resolve_from
resolve_attempts resolver key = resolve_from resolver key max_attempts 1

-- The loop over the resolvers.
unfoldable pub resolve_scheme : Text → Text → List SecretResolver → Resolution
unfolding text_eq resolve_attempts
resolve_scheme scheme key [] = ([], err (SecretError.no_resolver scheme))
resolve_scheme scheme key (resolver ∷ resolvers) =
    let rest = resolve_scheme scheme key resolvers in
    if text_eq resolver.scheme scheme then resolve_attempts resolver key else rest

abbrev stored : Text → Option (Option Text) → Result SecretError Text
stored key none = err SecretError.store_failed
stored key (some none) = err (SecretError.missing key)
stored key (some (some secret)) = ok secret

-- `get_secret` of the store gives none where it fails.
unfoldable pub require_secret :
    (Text → Option (Option Text)) → List SecretResolver → Text → Resolution
unfolding split_once resolve_scheme
require_secret get_secret_of resolvers key = elim (split_once (codes "://") key) [
  | some (scheme, _) ↦ resolve_scheme scheme key resolvers
  | none ↦ ([], stored key (get_secret_of key))
]

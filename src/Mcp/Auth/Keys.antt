-- ===== src/Mcp/Auth/Keys.antt =====
-- The keys that are served for a token: get_or_refresh_keys of src/mcp/auth.rs.
use earl.Prelude.{
  ◌+◌, ◌-◌, ◌<◌, true, false, ◌≡◌, ap, sym, ◌∙◌, ◌⊎◌, inl, inr, Bool-cases, Option, List, is_empty,
  Result, ok, err, ok-injective, arith,
}
use earl.Text.{Text}
use earl.Mcp.Auth.{
  JwkKey, ResolvedJwtConfig, Moment, JwksCache, FetchError, stale_grace_period, max_age_of,
  serves_cache, serves_stale, get_or_refresh_keys,
}

-- Keys of a cache that are not too old to be served.
pub record AreServable (config : ResolvedJwtConfig) (moment : Moment) (cache : JwksCache)
    : Type 0 where
  pub filled : is_empty cache.keys ≡ false
  pub young : moment.now - cache.fetched_at < max_age_of config moment + stale_grace_period

module _ (config : ResolvedJwtConfig) (moment : Moment) (kid : Option Text)
    (cache : JwksCache) where
  serves_cache-AreServable :
      serves_cache config moment kid cache ≡ true → AreServable config moment cache
  unfolding serves_cache
  serves_cache-AreServable h = record { filled = ground arith; young = ground arith }

  serves_stale-AreServable :
      serves_stale config moment cache ≡ true → AreServable config moment cache
  unfolding serves_stale
  serves_stale-AreServable h = record { filled = ground arith; young = ground arith }

  cached :
      {fetched : Result FetchError (List JwkKey)} {keys : List JwkKey} {next : JwksCache}
      → AreServable config moment cache
      → ◌≡◌ {A = Result FetchError (List JwkKey) × JwksCache} (ok cache.keys, cache) (ok keys, next)
      → (next.keys ≡ keys)
        × ((fetched ≡ ok keys) ⊎ ((cache ≡ next) × AreServable config moment cache))
  cached servable h =
      (sym (ap (λ p. p.1.keys) h) ∙ ok-injective (ap (λ p. p.0) h), inr (ap (λ p. p.1) h, servable))

  no_keys :
      {e : FetchError} {keys : List JwkKey}
      → ¬ (◌≡◌ {A = Result FetchError (List JwkKey)} (err e) (ok keys))
  no_keys h = cc

  -- Keys that are served are in the cache afterwards; they come from the fetch of this call, or were
  -- in the cache before, which holds keys and is within its maximal age and the grace period.
  pub get_or_refresh_keys-AreServable :
      (fetched : Result FetchError (List JwkKey)) (keys : List JwkKey) (next : JwksCache)
      → get_or_refresh_keys config moment kid fetched cache ≡ (ok keys, next)
      → (next.keys ≡ keys)
        × ((fetched ≡ ok keys) ⊎ ((cache ≡ next) × AreServable config moment cache))
  unfolding get_or_refresh_keys
  get_or_refresh_keys-AreServable (ok fresh) keys next =
      elim (Bool-cases (serves_cache config moment kid cache)) [
        | inl served ↦ rw served (cached (serves_cache-AreServable served))
        | inr missed ↦ rw missed (λ h.
            (sym (ap (λ p. p.1.keys) h) ∙ ok-injective (ap (λ p. p.0) h), inl (ap (λ p. p.0) h)))
      ]
  get_or_refresh_keys-AreServable (err e) keys next =
      elim (Bool-cases (serves_cache config moment kid cache)) [
        | inl served ↦ rw served (cached (serves_cache-AreServable served))
        | inr missed ↦ elim (Bool-cases (serves_stale config moment cache)) [
          | inl stale ↦ rw (missed, stale) (cached (serves_stale-AreServable stale))
          | inr old ↦ rw (missed, old) (λ h. absurd (no_keys (ap (λ p. p.0) h)))
        ]
      ]

-- ===== src/Mcp/Auth/Verified.antt =====
-- What a token must be to give a subject: verify_token of src/mcp/auth.rs.
use earl.Prelude.{
  Bool, true, false, not, ◌≡◌, refl, ap, ◌∙◌, sym, inl, inr, Option, none, some, List, [], ltb,
  some_and, Result, ok, err, bail_if, bail_if_iff, bind-eq_ok, or_fail, or_fail-eq_ok, map_err,
  map_err-eq_ok, ok-injective, Result-cases, subst, ◌⊎◌, ◌∷◌, ◌≤◌, Any,
}
use earl.Text.{Text, codes, text_eq, is_blank, len}
use earl.Text.Laws.{text_eq_iff}
use earl.Json.{Value, HasMember}
use earl.Mcp.{Subject}
use earl.Mcp.Auth.{
  Services, ResolvedJwtConfig, Moment, JwksCache, Header, Claims, JwkKey, AuthError, FetchError,
  contains_algorithm, max_kid_length, kty_of, find_key, expected_kty, validation_of, Validation,
  decoded, get_or_refresh_keys,
}
use earl.Mcp.Auth.Verification.{
  check_token_header, signing_key, read_claims, verify_with, verify_token, fetch_jwks,
}
use earl.Mcp.Auth.Keys.{get_or_refresh_keys-AreServable}
use earl.Mcp.Auth.Choice
use earl.Mcp.Auth.Choice.{
  or_empty, IsKeyFor, IsKeyType, find_key-IsKeyFor, kty-HasMember, expected_kty-IsKeyType,
  contains_algorithm-Any,
}

passed : (b : Bool) (e : AuthError) → bail_if (not b) e ≡ ok tt → b ≡ true
passed true e h = refl
passed false e h = cc

decoded-eq_ok :
    (o : Option (Option Claims)) (claims : Claims) → decoded o ≡ ok claims → o ≡ some (some claims)
decoded-eq_ok none claims h = cc
decoded-eq_ok (some none) claims h = cc
decoded-eq_ok (some (some c)) claims h = ap (λ x. some (some x)) (ok-injective h)

module _ (services : Services) (config : ResolvedJwtConfig) where
  -- The claims that a signature must cover and the issuer, the audience and the algorithms it is
  -- checked for.
  abbrev pub checks : Validation
  checks = record {
    issuer = config.issuer;
    audience = config.audience;
    validate_nbf = true;
    leeway = config.clock_skew_seconds;
    algorithms = config.algorithms;
    required_spec_claims = codes "exp" ∷ codes "sub" ∷ codes "iss" ∷ codes "aud" ∷ [];
  }

  -- A token that is signed with a key for an allowed algorithm, and whose claims passed the checks. A
  -- key without a type is held to have the empty one.
  pub record IsVerified (token : Text) (keys : List JwkKey) (subject : Subject) : Type 0 where
    pub header : Header
    pub read : services.decode_header token ≡ some header
    pub short_kid : (kid : Text) → header.kid ≡ some kid → len kid ≤ 256
    pub allowed : Any (λ a. a ≡ header.alg) config.algorithms
    pub key : JwkKey
    pub found : IsKeyFor header.kid keys key
    pub kty : Text
    pub has_kty : HasMember (codes "kty") (Value.string kty) key ⊎ (kty ≡ [])
    pub fits_key : IsKeyType header.alg (services.to_uppercase kty)
    pub signed :
        services.decode token key checks
        ≡ some (some (record { sub = subject.sub; jti = subject.jti }))
    pub filled : is_blank subject.sub ≡ false

  check_token_header_inv :
      (token : Text) (header : Header)
      → check_token_header services config token ≡ ok header
      → (services.decode_header token ≡ some header)
        × (some_and (λ kid. ltb max_kid_length (len kid)) header.kid ≡ false)
        × (contains_algorithm config.algorithms header.alg ≡ true)
  unfolding check_token_header
  check_token_header_inv token header h =
      let (found, read, h1) = bind-eq_ok (or_fail (services.decode_header token) _) _ h in
      let (_, short, h2) =
        bind-eq_ok (bail_if (some_and (λ kid. ltb max_kid_length (len kid)) found.kid) _) _ h1 in
      let (_, allowed, h3) =
        bind-eq_ok (bail_if (not (contains_algorithm config.algorithms found.alg)) _) _ h2 in
      subst
        (λ x.
          (services.decode_header token ≡ some x)
          × (some_and (λ kid. ltb max_kid_length (len kid)) x.kid ≡ false)
          × (contains_algorithm config.algorithms x.alg ≡ true))
        (ok-injective h3) (or_fail-eq_ok _ _ read, (bail_if_iff _ _).0 short, passed _ _ allowed)

  abbrev key_type : JwkKey → Text
  key_type key = services.to_uppercase (or_empty (kty_of key))

  signing_key_inv :
      (header : Header) (keys : List JwkKey) (key : JwkKey)
      → signing_key services config header keys ≡ ok key
      → (find_key header.kid keys ≡ some key)
        × ((kty : Text) × (expected_kty header.alg ≡ some kty)
            × (text_eq (key_type key) kty ≡ true))
  unfolding signing_key
  signing_key_inv header keys key h =
      let (jwk, found, h1) = bind-eq_ok (or_fail (find_key header.kid keys) _) _ h in
      let (kty, expected, h2) = bind-eq_ok (or_fail (expected_kty header.alg) _) _ h1 in
      let (_, fits, h3) = bind-eq_ok (bail_if (not (text_eq (key_type jwk) kty)) _) _ h2 in
      let (_, parsed, h4) = bind-eq_ok (bail_if (not (services.is_jwk jwk)) _) _ h3 in
      let (_, created, h5) = bind-eq_ok (bail_if (not (services.makes_key jwk)) _) _ h4 in
      subst
        (λ x.
          (find_key header.kid keys ≡ some x)
          × ((kty : Text) × (expected_kty header.alg ≡ some kty)
              × (text_eq (key_type x) kty ≡ true)))
        (ok-injective h5)
        (or_fail-eq_ok _ _ found, (kty, or_fail-eq_ok _ _ expected, passed _ _ fits))

  read_claims_inv :
      (token : Text) (key : JwkKey) (subject : Subject)
      → read_claims services config token key ≡ ok subject
      → (services.decode token key checks
          ≡ some (some (record { sub = subject.sub; jti = subject.jti })))
        × (is_blank subject.sub ≡ false)
  unfolding read_claims validation_of
  read_claims_inv token key subject h =
      let (claims, signed, h1) =
        bind-eq_ok (decoded (services.decode token key (validation_of config))) _ h in
      let (_, filled, h2) = bind-eq_ok (bail_if (is_blank claims.sub) _) _ h1 in
      subst
        (λ x.
          (services.decode token key checks ≡ some (some (record { sub = x.sub; jti = x.jti })))
          × (is_blank x.sub ≡ false))
        (ok-injective h2) (decoded-eq_ok _ claims signed, (bail_if_iff _ _).0 filled)

  verify_with_inv :
      (token : Text) (header : Header) (subject : Subject)
      (fetched : Result FetchError (List JwkKey))
      → check_token_header services config token ≡ ok header
      → verify_with services config token header fetched ≡ ok subject
      → (keys : List JwkKey) × (fetched ≡ ok keys) × IsVerified token keys subject
  unfolding verify_with
  verify_with_inv token header subject fetched c h =
      let (keys, given, h1) = bind-eq_ok (map_err _ fetched) _ h in
      let (key, k, h2) = bind-eq_ok (signing_key services config header keys) _ h1 in
      let (read, short_one, allowed) = check_token_header_inv token header c in
      let (found, (kty, expected, fits)) = signing_key_inv header keys key k in
      let (signed, filled) = read_claims_inv token key subject h2 in
      (
        keys,
        map_err-eq_ok _ fetched given,
        record {
          header = header;
          read = read;
          short_kid = Choice.short_kid header.kid short_one;
          allowed = contains_algorithm-Any config.algorithms header.alg allowed;
          key = key;
          found = find_key-IsKeyFor header.kid keys key found;
          kty = or_empty (kty_of key);
          has_kty = kty-HasMember key;
          fits_key =
              expected_kty-IsKeyType header.alg (key_type key)
                (expected ∙ ap some (sym ((text_eq_iff (key_type key) kty).0 fits)));
          signed = signed;
          filled = filled;
        },
      )

  no_subject :
      {e : AuthError} {subject : Subject}
      → ¬ (◌≡◌ {A = Result AuthError Subject} (err e) (ok subject))
  no_subject h = cc

  -- A token gives a subject only if its header can be read, with an identifier of at most 256
  -- characters; if its algorithm is one of the settings; if its key is the served one with its
  -- identifier, or the first served one where the header has none, and is of the type that the
  -- algorithm asks for; if the library accepts the token under that key for the issuer and the audience
  -- of the settings, with the claims exp, sub, iss and aud; and if its claim `sub` is not blank.
  pub verify_token-IsVerified :
      (moment : Moment) (token : Text) (cache next : JwksCache) (subject : Subject)
      → verify_token services config moment token cache ≡ (ok subject, next)
      → IsVerified token next.keys subject
  unfolding verify_token
  verify_token-IsVerified moment token cache next subject =
      elim (Result-cases (check_token_header services config token)) [
        | inr (e, c) ↦ rw (c, verify_token) (λ h. absurd (no_subject (ap (λ p. p.0) h)))
        | inl (header, c) ↦
            rw (c, verify_token)
              (λ h.
                (let fetched = fetch_jwks services config in
                  let served = get_or_refresh_keys config moment header.kid fetched cache in
                  let (keys, given, verified) =
                    verify_with_inv token header subject served.0 c (ap (λ p. p.0) h) in
                  let (same, origin) =
                    get_or_refresh_keys-AreServable config moment header.kid cache fetched keys
                      served.1 (ap (λ k. (k, served.1)) given) in
                  subst (λ ks. IsVerified token ks subject) (sym same ∙ ap (λ p. p.1.keys) h)
                    verified))
      ]

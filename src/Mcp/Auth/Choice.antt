-- ===== src/Mcp/Auth/Choice.antt =====
-- The key and the algorithm that a token is read with: find_key and expected_kty of src/mcp/auth.rs.
use earl.Prelude.{
  true, false, ◌≡◌, refl, ap, ◌∙◌, sym, inl, inr, Option, none, some, List, [], ltb, some_and,
  subst, ◌⊎◌, ◌∷◌, ◌≤◌, ◌==◌, ℕ, Any, Any-map, any_iff, if◌then◌else◌, some-injective, Bool-cases,
  Option-cases, arith,
}
use earl.Text.{Text, codes, text_eq, len}
use earl.Text.Laws.{text_eq_iff}
use earl.Json.{Value, Fields, HasMember}
use earl.Mcp.Auth.{
  JwkKey, contains_algorithm, max_kid_length, kid_of, kty_of, find_key, find_kid, string_field,
  get_str, expected_kty, Algorithm, discriminant,
}

abbrev pub or_empty : Option Text → Text
or_empty none = []
or_empty (some s) = s

-- The key of a header: with its identifier, or the first one where the header has none.
abbrev pub IsKeyFor : Option Text → List JwkKey → JwkKey → Type 0
IsKeyFor none keys key = (more : List JwkKey) × (keys ≡ key ∷ more)
IsKeyFor (some kid) keys key =
    Any (λ k. k ≡ key) keys × HasMember (codes "kid") (Value.string kid) key

-- The type that the keys of an algorithm have.
abbrev pub IsKeyType : Algorithm → Text → Type 0
IsKeyType alg kty =
    ((kty ≡ codes "RSA")
      × Any (λ a. a ≡ alg)
          (Algorithm.rs256 ∷ Algorithm.rs384 ∷ Algorithm.rs512 ∷ Algorithm.ps256 ∷ Algorithm.ps384
            ∷ Algorithm.ps512 ∷ []))
    ⊎ ((kty ≡ codes "EC") × Any (λ a. a ≡ alg) (Algorithm.es256 ∷ Algorithm.es384 ∷ []))
    ⊎ ((kty ≡ codes "OKP") × (alg ≡ Algorithm.ed_dsa))

string_of :
    (value : Value) (s : Text)
    → elim value [ Value.string t ↦ some t | _ ↦ none ] ≡ some s
    → value ≡ Value.string s
string_of Value.null s h = cc
string_of (Value.bool b) s h = cc
string_of (Value.number n) s h = cc
string_of (Value.string t) s h = ap Value.string (some-injective h)
string_of (Value.array items) s h = cc
string_of (Value.object fields) s h = cc

string_field-HasMember :
    (name : Text) (fields : Fields) (s : Text)
    → string_field name fields ≡ some s
    → HasMember name (Value.string s) (Value.object fields)
unfolding string_field
string_field-HasMember name Fields.end s = λ h. cc
string_field-HasMember name (Fields.field key value more) s = elim (Bool-cases (text_eq key name)) [
  | inl same ↦ rw same (λ h. inl ((text_eq_iff key name).0 same, string_of value s h))
  | inr other ↦ rw other (λ h. inr (string_field-HasMember name more s h))
]

get_str-HasMember :
    (name : Text) (key : JwkKey) (s : Text)
    → get_str name key ≡ some s
    → HasMember name (Value.string s) key
unfolding get_str
get_str-HasMember name Value.null s h = cc
get_str-HasMember name (Value.bool b) s h = cc
get_str-HasMember name (Value.number n) s h = cc
get_str-HasMember name (Value.string t) s h = cc
get_str-HasMember name (Value.array items) s h = cc
get_str-HasMember name (Value.object fields) s h = string_field-HasMember name fields s h

kid_matches : (kid : Text) (o : Option Text) → some_and (λ k. text_eq k kid) o ≡ true → o ≡ some kid
kid_matches kid none h = cc
kid_matches kid (some k) h = ap some ((text_eq_iff k kid).0 h)

find_kid-IsKeyFor :
    (kid : Text) (keys : List JwkKey) (key : JwkKey)
    → find_kid kid keys ≡ some key
    → IsKeyFor (some kid) keys key
unfolding find_kid
find_kid-IsKeyFor kid [] key = λ h. cc
find_kid-IsKeyFor kid (first ∷ keys) key =
    elim (Bool-cases (some_and (λ k. text_eq k kid) (kid_of first))) [
      | inl same ↦ rw same (λ h. (
        inl (some-injective h),
        get_str-HasMember (codes "kid") key kid
            (ap kid_of (sym (some-injective h)) ∙ kid_matches kid (kid_of first) same),
      ))
      | inr other ↦
          rw other (λ h. (let (among, has) = find_kid-IsKeyFor kid keys key h in (inr among, has)))
    ]

pub find_key-IsKeyFor :
    (o : Option Text) (keys : List JwkKey) (key : JwkKey)
    → find_key o keys ≡ some key
    → IsKeyFor o keys key
unfolding find_key
find_key-IsKeyFor none [] key h = cc
find_key-IsKeyFor none (first ∷ keys) key h = (keys, ap (λ k. k ∷ keys) (some-injective h))
find_key-IsKeyFor (some kid) keys key h = find_kid-IsKeyFor kid keys key h

pub kty-HasMember :
    (key : JwkKey)
    → HasMember (codes "kty") (Value.string (or_empty (kty_of key))) key
      ⊎ (or_empty (kty_of key) ≡ [])
kty-HasMember key = elim (Option-cases (kty_of key)) [
  | inl without ↦ rw without (inr refl)
  | inr (kty, has) ↦ rw has (inl (get_str-HasMember (codes "kty") key kty has))
]

pub expected_kty-IsKeyType :
    (alg : Algorithm) (kty : Text) → expected_kty alg ≡ some kty → IsKeyType alg kty
unfolding expected_kty
expected_kty-IsKeyType Algorithm.hs256 kty h = cc
expected_kty-IsKeyType Algorithm.hs384 kty h = cc
expected_kty-IsKeyType Algorithm.hs512 kty h = cc
expected_kty-IsKeyType Algorithm.es256 kty h = inr (inl (sym (some-injective h), inl refl))
expected_kty-IsKeyType Algorithm.es384 kty h = inr (inl (sym (some-injective h), inr (inl refl)))
expected_kty-IsKeyType Algorithm.ed_dsa kty h = inr (inr (sym (some-injective h), refl))
expected_kty-IsKeyType Algorithm.rs256 kty h = inl (sym (some-injective h), inl refl)
expected_kty-IsKeyType Algorithm.rs384 kty h = inl (sym (some-injective h), inr (inl refl))
expected_kty-IsKeyType Algorithm.rs512 kty h = inl (sym (some-injective h), inr (inr (inl refl)))
expected_kty-IsKeyType Algorithm.ps256 kty h =
    inl (sym (some-injective h), inr (inr (inr (inl refl))))
expected_kty-IsKeyType Algorithm.ps384 kty h =
    inl (sym (some-injective h), inr (inr (inr (inr (inl refl)))))
expected_kty-IsKeyType Algorithm.ps512 kty h =
    inl (sym (some-injective h), inr (inr (inr (inr (inr (inl refl))))))

-- The algorithm of a discriminant.
abbrev algorithm_of : ℕ → Algorithm
algorithm_of n =
    if n == 0
    then Algorithm.hs256
    else if n == 1
    then Algorithm.hs384
    else if n == 2
    then Algorithm.hs512
    else if n == 3
    then Algorithm.es256
    else if n == 4
    then Algorithm.es384
    else if n == 5
    then Algorithm.rs256
    else if n == 6
    then Algorithm.rs384
    else if n == 7
    then Algorithm.rs512
    else if n == 8
    then Algorithm.ps256
    else if n == 9
    then Algorithm.ps384
    else if n == 10
    then Algorithm.ps512
    else Algorithm.ed_dsa

algorithm_of-discriminant : (alg : Algorithm) → algorithm_of (discriminant alg) ≡ alg
unfolding discriminant
algorithm_of-discriminant Algorithm.hs256 = refl
algorithm_of-discriminant Algorithm.hs384 = refl
algorithm_of-discriminant Algorithm.hs512 = refl
algorithm_of-discriminant Algorithm.es256 = refl
algorithm_of-discriminant Algorithm.es384 = refl
algorithm_of-discriminant Algorithm.rs256 = refl
algorithm_of-discriminant Algorithm.rs384 = refl
algorithm_of-discriminant Algorithm.rs512 = refl
algorithm_of-discriminant Algorithm.ps256 = refl
algorithm_of-discriminant Algorithm.ps384 = refl
algorithm_of-discriminant Algorithm.ps512 = refl
algorithm_of-discriminant Algorithm.ed_dsa = refl

same_algorithm : (a b : Algorithm) → (discriminant a == discriminant b) ≡ true → a ≡ b
same_algorithm a b h =
    let same : discriminant a ≡ discriminant b = ground arith in
    sym (algorithm_of-discriminant a) ∙ ap algorithm_of same ∙ algorithm_of-discriminant b

pub contains_algorithm-Any :
    (algorithms : List Algorithm) (alg : Algorithm)
    → contains_algorithm algorithms alg ≡ true
    → Any (λ a. a ≡ alg) algorithms
contains_algorithm-Any algorithms alg h =
    Any-map (λ a. (discriminant a == discriminant alg) ≡ true) (λ a. a ≡ alg) algorithms
      (λ a. same_algorithm a alg)
      ((any_iff (λ a. discriminant a == discriminant alg) algorithms).0 h)

pub short_kid :
    (o : Option Text)
    → some_and (λ kid. ltb max_kid_length (len kid)) o ≡ false
    → (kid : Text) → o ≡ some kid
    → len kid ≤ 256
short_kid none h kid e = cc
short_kid (some k) h kid e = subst (λ x. len x ≤ 256) (some-injective e) (ground arith)

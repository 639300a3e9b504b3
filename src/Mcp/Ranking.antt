-- ===== src/Mcp/Ranking.antt =====
-- What the discovery search finds, and in which order: handle_discovery_search of src/mcp/mod.rs.
use earl.Prelude.{
  ℕ, zero, suc, ◌≤◌, ◌<◌, Bool, true, false, ◌&&◌, ◌≡◌, refl, ◌⊎◌, inl, inr, Bool-cases, Option,
  List, [], ◌∷◌, length, ltb, is_empty, ok, bind-eq_ok, ok-injective, subst, All, All-map, arith,
}
use earl.Text.{Text, trim}
use earl.Text.Keys.{text_lt}
use earl.Policy.{CommandMode}
use earl.Catalog.{TemplateCatalogEntry}
use earl.Mcp.{McpState, Subject, DiscoverySearchArgs, accessible, filter, values}
use earl.Mcp.Gate.{Permits}
use earl.Mcp.Visible.{Permits-accessible_iff}
use earl.Mcp.Search.{
  Ranked, discovery_score, fits, selected, score_all, ahead, place, sort_ranked, truncate,
  clamp_limit, max_discovery_limit, rank, parse_mode_filter, given_lower, search_matches,
}

-- The left match may stand in front: it has the higher score, or the same and no greater key.
abbrev pub InOrder : Ranked → Ranked → Type 0
InOrder (left, left_score) (right, right_score) =
    (right_score < left_score) ⊎ ((left_score ≡ right_score) × (text_lt right.key left.key ≡ false))

abbrev Leads : Ranked → List Ranked → Type 0
Leads r [] = Unit
Leads r (x ∷ xs) = InOrder r x

-- Each match may stand in front of the next one.
abbrev pub IsRanked : List Ranked → Type 0
IsRanked [] = Unit
IsRanked (r ∷ rs) = Leads r rs × IsRanked rs

text_lt_asym : (s t : Text) → text_lt s t ≡ true → text_lt t s ≡ false
unfolding text_lt
text_lt_asym [] [] h = cc
text_lt_asym [] (b ∷ t) h = refl
text_lt_asym (a ∷ s) [] h = cc
text_lt_asym (a ∷ s) (b ∷ t) h = ground (arith, text_lt_asym s t)

ahead-InOrder : (r x : Ranked) → ahead r x ≡ true → InOrder r x
unfolding ahead
ahead-InOrder (left, ls) (right, rs) h = elim (Bool-cases (ltb rs ls)) [
  | inl higher ↦ inl (ground arith)
  | inr not_higher ↦ inr (ground arith, ground arith)
]

behind-InOrder : (r x : Ranked) → ahead r x ≡ false → InOrder x r
unfolding ahead
behind-InOrder (left, ls) (right, rs) h = elim (Bool-cases (ltb ls rs)) [
  | inl higher ↦ inl (ground arith)
  | inr not_higher ↦ inr (ground arith, text_lt_asym right.key left.key (ground arith))
]

place-Leads : (x r : Ranked) (rs : List Ranked) → InOrder x r → Leads x rs → Leads x (place r rs)
unfolding place
place-Leads x r [] o h = o
place-Leads x r (y ∷ ys) o h = elim (Bool-cases (ahead r y)) [
  | inl front ↦ rw front o
  | inr later ↦ rw later h
]

place-IsRanked : (r : Ranked) (rs : List Ranked) → IsRanked rs → IsRanked (place r rs)
unfolding place
place-IsRanked r [] h = (tt, tt)
place-IsRanked r (x ∷ xs) (l, h) = elim (Bool-cases (ahead r x)) [
  | inl front ↦ rw front (ahead-InOrder r x front, (l, h))
  | inr later ↦ rw later (place-Leads x r xs (behind-InOrder r x later) l, place-IsRanked r xs h)
]

sort_ranked-IsRanked : (rs : List Ranked) → IsRanked (sort_ranked rs)
unfolding sort_ranked
sort_ranked-IsRanked [] = tt
sort_ranked-IsRanked (r ∷ rs) = place-IsRanked r (sort_ranked rs) (sort_ranked-IsRanked rs)

truncate-Leads : (n : ℕ) (r : Ranked) (rs : List Ranked) → Leads r rs → Leads r (truncate n rs)
unfolding truncate
truncate-Leads zero r rs h = tt
truncate-Leads (suc n) r [] h = tt
truncate-Leads (suc n) r (x ∷ xs) h = h

truncate-IsRanked : (n : ℕ) (rs : List Ranked) → IsRanked rs → IsRanked (truncate n rs)
unfolding truncate
truncate-IsRanked zero rs h = tt
truncate-IsRanked (suc n) [] h = tt
truncate-IsRanked (suc n) (x ∷ xs) (l, h) = (truncate-Leads n x xs l, truncate-IsRanked n xs h)

length-truncate : (n : ℕ) (rs : List Ranked) → length (truncate n rs) ≤ n
unfolding truncate
length-truncate zero rs = omega arith
length-truncate (suc n) [] = omega arith
length-truncate (suc n) (x ∷ xs) = omega (arith, length-truncate n xs)

module _ {A : Type 0} (p : A → Bool) where
  filter-All : (P : A → Type 0) (xs : List A) → All P xs → All P (filter p xs)
  unfolding filter
  filter-All P [] h = tt
  filter-All P (x ∷ xs) (hx, h) = elim (Bool-cases (p x)) [
    | inl kept ↦ rw kept (hx, filter-All P xs h)
    | inr dropped ↦ rw dropped (filter-All P xs h)
  ]

  filter-holds : (xs : List A) → All (λ x. p x ≡ true) (filter p xs)
  unfolding filter
  filter-holds [] = tt
  filter-holds (x ∷ xs) = elim (Bool-cases (p x)) [
    | inl kept ↦ rw kept (kept, filter-holds xs)
    | inr dropped ↦ rw dropped (filter-holds xs)
  ]

module _ (P : Ranked → Type 0) where
  place-All : (r : Ranked) (rs : List Ranked) → P r → All P rs → All P (place r rs)
  unfolding place
  place-All r [] p h = (p, tt)
  place-All r (x ∷ xs) p (q, h) = elim (Bool-cases (ahead r x)) [
    | inl front ↦ rw front (p, (q, h))
    | inr later ↦ rw later (q, place-All r xs p h)
  ]

  sort_ranked-All : (rs : List Ranked) → All P rs → All P (sort_ranked rs)
  unfolding sort_ranked
  sort_ranked-All [] h = tt
  sort_ranked-All (r ∷ rs) (p, h) = place-All r (sort_ranked rs) p (sort_ranked-All rs h)

  truncate-All : (n : ℕ) (rs : List Ranked) → All P rs → All P (truncate n rs)
  unfolding truncate
  truncate-All zero rs h = tt
  truncate-All (suc n) [] h = tt
  truncate-All (suc n) (x ∷ xs) (p, h) = (p, truncate-All n xs h)

-- An entry that may be called, with its score, which is not zero.
pub record IsMatch (state : McpState) (subject : Option Subject) (query : Text) (r : Ranked)
    : Type 0 where
  pub permitted : Permits state subject r.0.key r.0
  pub score : r.1 ≡ discovery_score query r.0
  pub positive : 0 < r.1

and_right : (a b : Bool) → (a && b) ≡ true → b ≡ true
and_right true b h = h
and_right false b h = cc

module _ (state : McpState) (subject : Option Subject) (query : Text) where
  abbrev Scored : Ranked → Type 0
  Scored r = Permits state subject r.0.key r.0 × (r.1 ≡ discovery_score query r.0)

  score_all-Scored :
      (entries : List TemplateCatalogEntry)
      → All (λ entry. Permits state subject entry.key entry) entries
      → All Scored (score_all query entries)
  unfolding score_all
  score_all-Scored [] h = tt
  score_all-Scored (entry ∷ entries) (p, h) = ((p, refl), score_all-Scored entries h)

  positive-IsMatch :
      (rs : List Ranked)
      → All Scored rs
      → All (λ r. ltb 0 r.1 ≡ true) rs
      → All (IsMatch state subject query) rs
  positive-IsMatch [] h k = tt
  positive-IsMatch (r ∷ rs) ((p, s), h) (pos, k) =
      (record { permitted = p; score = s; positive = ground arith }, positive-IsMatch rs h k)

  module _ (mode : Option CommandMode) (provider category : Option Text) where
    selected-Permits :
        (entry : TemplateCatalogEntry)
        → selected state subject mode provider category entry ≡ true
        → Permits state subject entry.key entry
    unfolding selected
    selected-Permits entry h =
        (Permits-accessible_iff state subject entry).1
          (and_right (fits mode provider category entry) (accessible state subject entry) h)

    rank-IsMatch :
        (entries : List TemplateCatalogEntry) (limit : ℕ)
        → All
            (IsMatch state subject query)
            (rank entries (selected state subject mode provider category) query limit)
    unfolding rank
    rank-IsMatch entries limit =
        let select = selected state subject mode provider category in
        let scored = score_all-Scored (filter select entries) (
          All-map (λ entry. select entry ≡ true) (λ entry. Permits state subject entry.key entry)
            (filter select entries) selected-Permits (filter-holds select entries)) in
        truncate-All (IsMatch state subject query) limit _ (
          sort_ranked-All (IsMatch state subject query) _ (
            positive-IsMatch _
              (filter-All (λ r. ltb 0 r.1) Scored (score_all query (filter select entries)) scored)
              (filter-holds (λ r. ltb 0 r.1) (score_all query (filter select entries)))))

rank-IsRanked :
    (entries : List TemplateCatalogEntry) (select : TemplateCatalogEntry → Bool) (query : Text)
    (limit : ℕ)
    → IsRanked (rank entries select query limit)
unfolding rank
rank-IsRanked entries select query limit =
    let found = filter (λ (r : Ranked). ltb 0 r.1) (score_all query (filter select entries)) in
    truncate-IsRanked limit (sort_ranked found) (sort_ranked-IsRanked found)

below_max : (limit : ℕ) {n : ℕ} → n ≤ clamp_limit limit → n ≤ max_discovery_limit
below_max limit h = ground arith

below_limit : (limit : ℕ) {n : ℕ} → 1 ≤ limit → n ≤ clamp_limit limit → n ≤ limit
below_limit limit p h = ground arith

-- A search that is not refused gives at most 50 matches and, where its limit is at least one, no more
-- than its limit; each of them is an entry that the subject may call, with its positive score; and
-- higher scores come first and, at the same score, keys in their order.
pub search_matches-IsRanked :
    (state : McpState) (subject : Option Subject) (args : DiscoverySearchArgs)
    (matches : List Ranked)
    → search_matches state subject args ≡ ok matches
    → (length matches ≤ max_discovery_limit)
      × ((1 ≤ args.limit) → length matches ≤ args.limit)
      × All (IsMatch state subject (trim args.query)) matches
      × IsRanked matches
unfolding search_matches rank
search_matches-IsRanked state subject args matches =
    elim (Bool-cases (is_empty (trim args.query))) [
      | inl blank ↦ rw blank (λ h. cc)
      | inr worded ↦ rw worded (λ h.
          (let (mode, _, made) = bind-eq_ok (parse_mode_filter args.mode) _ h in
            subst
              (λ ms.
                (length ms ≤ max_discovery_limit)
                × ((1 ≤ args.limit) → length ms ≤ args.limit)
                × All (IsMatch state subject (trim args.query)) ms
                × IsRanked ms)
              (ok-injective made)
              (
                below_max args.limit (length-truncate (clamp_limit args.limit) _),
                (λ pos. below_limit args.limit pos (length-truncate (clamp_limit args.limit) _)),
                rank-IsMatch state subject (trim args.query) mode (given_lower args.provider)
                    (given_lower args.category) (values state.catalog.entries)
                    (clamp_limit args.limit),
                rank-IsRanked (values state.catalog.entries) _ (trim args.query)
                    (clamp_limit args.limit),
              )))
    ]

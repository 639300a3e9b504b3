-- ===== src/Mcp/Search.antt =====
-- Discovery: handle_discovery_search and discovery_score of src/mcp/mod.rs. A score is counted in
-- halves: all the weights are multiples of one half, which `f32` adds exactly.
use earl.Prelude.{
  ℕ, zero, suc, ◌+◌, Bool, true, false, not, ◌&&◌, ◌||◌, Option, none, some, List, [], ◌∷◌, ◌++◌,
  map, length, any, ltb, ◌==◌, is_empty, if◌then◌else◌, Result, ok, err, ◌>>=◌, or_fail,
}
use earl.Text.{Text, codes, text_eq, trim, to_ascii_lowercase, contains, split_whitespace}
use earl.Text.Keys.{Map, text_lt}
use earl.Text.Decimal.{decimal}
use earl.Sse.{join_lines}
use earl.Json.{Value, json_object, json_array, Number}
use earl.Policy.{CommandMode}
use earl.Catalog.{TemplateCatalogEntry}
use earl.Mcp.{
  McpState, Subject, RpcFailure, DiscoverySearchArgs, Outside, accessible, is_write, filter, values,
}
use earl.Mcp.Tools.{as_str, tool_from_entry}

abbrev pub points : Bool → ℕ → ℕ
points true weight = weight
points false weight = 0

-- The fields of an entry in lower case.
pub record Searchable : Type 0 where
  pub key : Text
  pub provider : Text
  pub command : Text
  pub title : Text
  pub summary : Text
  pub description : Text
  pub categories : List Text
  pub params : List Text

unfoldable pub lowered : TemplateCatalogEntry → Searchable
unfolding to_ascii_lowercase
lowered entry = record {
  key = to_ascii_lowercase entry.key;
  provider = to_ascii_lowercase entry.provider;
  command = to_ascii_lowercase entry.command;
  title = to_ascii_lowercase entry.title;
  summary = to_ascii_lowercase entry.summary;
  description = to_ascii_lowercase entry.description;
  categories = map to_ascii_lowercase entry.categories;
  params = map (λ param. to_ascii_lowercase param.name) entry.template.params;
}

unfoldable pub token_score : Searchable → Text → ℕ
unfolding contains text_eq any
token_score entry token =
    points (contains entry.key token) 4
    + (points (text_eq entry.provider token) 4
        + (points (text_eq entry.command token) 4
            + (points (contains entry.title token) 3
                + (points (contains entry.summary token) 2
                    + (points (contains entry.description token) 1
                        + (points (any (λ category. contains category token) entry.categories) 2
                            + points (any (λ param. text_eq param token) entry.params) 1))))))

unfoldable pub tokens_score : Searchable → List Text → ℕ
unfolding token_score
tokens_score entry [] = 0
tokens_score entry (token ∷ tokens) = token_score entry token + tokens_score entry tokens

unfoldable pub query_score : Searchable → Text → ℕ
unfolding contains text_eq tokens_score split_whitespace
query_score entry query =
    points (text_eq entry.key query) 24
    + (points (contains entry.key query) 12
        + (points (contains entry.title query) 8
            + (points (contains entry.summary query) 6
                + (points (contains entry.description query) 4
                    + tokens_score entry (split_whitespace query)))))

unfoldable pub discovery_score : Text → TemplateCatalogEntry → ℕ
unfolding query_score lowered to_ascii_lowercase
discovery_score query entry =
    if is_empty (to_ascii_lowercase query)
    then 0
    else query_score (lowered entry) (to_ascii_lowercase query)

-- `map(str::trim).filter(..)`, and in lower case.
unfoldable pub given : Option Text → Option Text
unfolding trim
given none = none
given (some value) = if is_empty (trim value) then none else some (trim value)

unfoldable pub given_lower : Option Text → Option Text
unfolding given to_ascii_lowercase
given_lower value = elim (given value) [ none ↦ none | some v ↦ some (to_ascii_lowercase v) ]

unfoldable pub mode_named : Text → Result RpcFailure (Option CommandMode)
unfolding text_eq
mode_named mode =
    if text_eq mode (codes "read")
    then ok (some CommandMode.read)
    else if text_eq mode (codes "write")
    then ok (some CommandMode.write)
    else err (RpcFailure.invalid_mode_filter mode)

unfoldable pub parse_mode_filter : Option Text → Result RpcFailure (Option CommandMode)
unfolding given mode_named
parse_mode_filter mode = elim (given mode) [ none ↦ ok none | some m ↦ mode_named m ]

abbrev pub same_mode : CommandMode → CommandMode → Bool
same_mode CommandMode.read m = not (is_write m)
same_mode CommandMode.write m = is_write m

abbrev pub is_none_or {ℓ} : {A : Type ℓ} → (A → Bool) → Option A → Bool
is_none_or p none = true
is_none_or p (some a) = p a

-- The filters that a search names.
unfoldable pub fits : Option CommandMode → Option Text → Option Text → TemplateCatalogEntry → Bool
unfolding to_ascii_lowercase text_eq any
fits mode_filter provider_filter category_filter entry =
    is_none_or (λ mode. same_mode entry.mode mode) mode_filter
    && is_none_or (λ provider. text_eq (to_ascii_lowercase entry.provider) provider) provider_filter
    && is_none_or (λ category. any (λ c. text_eq (to_ascii_lowercase c) category) entry.categories)
        category_filter

-- The filter of the search.
unfoldable pub selected :
    McpState
    → Option Subject
    → Option CommandMode
    → Option Text
    → Option Text
    → TemplateCatalogEntry
    → Bool
unfolding accessible fits
selected state subject mode_filter provider_filter category_filter entry =
    fits mode_filter provider_filter category_filter entry && accessible state subject entry

abbrev pub Ranked : Type 0
Ranked = TemplateCatalogEntry × ℕ

unfoldable pub score_all : Text → List TemplateCatalogEntry → List Ranked
unfolding discovery_score
score_all query [] = []
score_all query (entry ∷ entries) = (entry, discovery_score query entry) ∷ score_all query entries

-- Whether the left entry stays in front of the right one: a higher score, or else no greater key.
unfoldable pub ahead : Ranked → Ranked → Bool
unfolding text_lt
ahead (left, left_score) (right, right_score) =
    ltb right_score left_score || left_score == right_score && not (text_lt right.key left.key)

-- `sort_by`, as the insertion of one entry after another.
unfoldable pub place : Ranked → List Ranked → List Ranked
unfolding ahead
place r [] = r ∷ []
place r (x ∷ xs) = let rest = place r xs in if ahead r x then r ∷ x ∷ xs else x ∷ rest

unfoldable pub sort_ranked : List Ranked → List Ranked
unfolding place
sort_ranked [] = []
sort_ranked (r ∷ rs) = place r (sort_ranked rs)

module _ {ℓ} {A : Type ℓ} where
  unfoldable pub truncate : ℕ → List A → List A
  truncate zero xs = []
  truncate (suc n) [] = []
  truncate (suc n) (x ∷ xs) = x ∷ truncate n xs

abbrev pub max_discovery_limit : ℕ
max_discovery_limit = 50

abbrev pub clamp_limit : ℕ → ℕ
clamp_limit limit =
    if ltb limit 1 then 1 else if ltb max_discovery_limit limit then max_discovery_limit else limit

unfoldable pub rank :
    List TemplateCatalogEntry → (TemplateCatalogEntry → Bool) → Text → ℕ → List Ranked
unfolding filter score_all sort_ranked truncate
rank entries select query limit =
    truncate limit (sort_ranked (filter (λ r. ltb 0 r.1) (score_all query (filter select entries))))

-- The search with its ranked matches.
unfoldable pub search_matches :
    McpState → Option Subject → DiscoverySearchArgs → Result RpcFailure (List Ranked)
unfolding trim parse_mode_filter given_lower selected values rank
search_matches state subject args =
    if is_empty (trim args.query) then err RpcFailure.empty_query else do
      mode_filter ← parse_mode_filter args.mode
      ok (
          rank (values state.catalog.entries)
            (selected state subject mode_filter (given_lower args.provider)
              (given_lower args.category))
            (trim args.query) (clamp_limit args.limit))

module _ (outside : Outside) where
  unfoldable pub match_value : Ranked → Value
  unfolding tool_from_entry
  match_value (entry, score) = json_object (
      (codes "name", Value.string entry.key)
      ∷ (codes "score", outside.score_number score)
      ∷ (codes "summary", Value.string entry.summary)
      ∷ (codes "mode", Value.string (as_str entry.mode))
      ∷ (codes "categories", json_array (map Value.string entry.categories))
      ∷ (codes "tool", tool_from_entry entry)
      ∷ [])

  -- `{:02}`.
  abbrev two_digits : ℕ → Text
  two_digits n = if ltb n 10 then b'0' ∷ decimal n else decimal n

  unfoldable pub match_lines : ℕ → List Ranked → List Text
  unfolding decimal
  match_lines index [] = []
  match_lines index ((entry, score) ∷ more) =
      (two_digits (index + 1)
        ++ (codes ". "
            ++ (entry.key
                ++ (codes " (" ++ (as_str entry.mode ++ (codes ") - " ++ entry.summary))))))
      ∷ match_lines (index + 1) more

  unfoldable pub search_text : Text → List Ranked → Text
  unfolding match_lines join_lines decimal
  search_text query [] = codes "No tools matched query `" ++ (query ++ codes "`.")
  search_text query matches =
      codes "Found "
      ++ (decimal (length matches)
          ++ (codes " matching tools for `"
              ++ (query ++ (codes "`:" ++ 10 ∷ join_lines (match_lines 0 matches)))))

  unfoldable pub search_result : Text → ℕ → List Ranked → Value
  unfolding match_value search_text
  search_result query limit matches = json_object (
      (
        codes "content",
        json_array (
            json_object (
              (codes "type", Value.string (codes "text"))
              ∷ (codes "text", Value.string (search_text query matches))
              ∷ [])
            ∷ []),
      )
      ∷ (
        codes "structuredContent",
        json_object (
            (codes "query", Value.string query)
            ∷ (codes "limit", Value.number (Number.pos_int limit))
            ∷ (codes "matches", json_array (map match_value matches))
            ∷ []),
      )
      ∷ [])

  unfoldable pub handle_discovery_search :
      Map Value → McpState → Option Subject → Result RpcFailure Value
  unfolding search_matches search_result
  handle_discovery_search arguments state subject = do
    args ← or_fail (outside.decode_search arguments) RpcFailure.undecodable_params
    matches ← search_matches state subject args
    ok (search_result (trim args.query) (clamp_limit args.limit) matches)

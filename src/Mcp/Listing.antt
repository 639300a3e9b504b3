-- ===== src/Mcp/Listing.antt =====
-- The tools in the response to tools/list and the tools that may be called: handle_request, build_tools
-- and the gates of handle_tools_call in src/mcp/mod.rs.
use earl.Prelude.{
  List, map, some-injective, true, false, ◌≡◌, refl, ap, ◌∙◌, sym, ◌↔◌, inl, inr, Option, none,
  some, [], ◌∷◌, ok, Any, subst,
}
use earl.Json.{Value, json_object, json_array, HasMember, HasElement}
use earl.Text.{Text, codes, text_eq, to_ascii_lowercase}
use earl.Text.Laws.{text_eq_iff}
use earl.Catalog.{TemplateCatalogEntry}
use earl.Mcp.Tools.{tool_from_entry}
use earl.Mcp.{McpMode, JsonRpcRequest, JsonRpcResponse, Outside, success, McpState, Subject}
use earl.Mcp.Server.{
  handle_request, dispatch, build_tools, tools_in_mode, map_id, jsonrpc_version, admitted_entry,
  visible_entries,
}
use earl.Mcp.Visible.{HasKey, IsKeyed, admitted-visible_iff}

-- A tool of this name is in the response.
abbrev pub IsListed : Text → JsonRpcResponse → Type 0
IsListed name response =
    (result : Value) × (tools : Value) × (tool : Value) × (response.result ≡ some result)
    × HasMember (codes "tools") tools result
    × HasElement tool tools
    × HasMember (codes "name") (Value.string name) tool

unlike : (s t : Text) → text_eq s t ≡ false → ¬ (s ≡ t)
unlike s t h same = let clash : true ≡ false = sym ((text_eq_iff s t).1 same) ∙ h in cc

string-injective : (s t : Text) → Value.string s ≡ Value.string t → s ≡ t
string-injective s t h = cc

module _ (name : Text) where
  tool_from_entry-name :
      (entry : TemplateCatalogEntry)
      → HasMember (codes "name") (Value.string name) (tool_from_entry entry) ↔ HasKey name entry
  unfolding tool_from_entry text_eq
  tool_from_entry-name entry = (
    λ h. elim h [
      | inl (_, same) ↦ string-injective entry.key name same
      | inr (inl (e, _)) ↦ absurd (unlike (codes "title") (codes "name") refl e)
      | inr (inr (inl (e, _))) ↦ absurd (unlike (codes "description") (codes "name") refl e)
      | inr (inr (inr (inl (e, _)))) ↦ absurd (unlike (codes "inputSchema") (codes "name") refl e)
      | inr (inr (inr (inr none_left))) ↦ absurd none_left
    ],
    λ k. inl (refl, ap Value.string k),
  )

  tools-Any :
      (entries : List TemplateCatalogEntry) (tool : Value)
      → HasElement tool (json_array (map tool_from_entry entries))
      → HasMember (codes "name") (Value.string name) tool
      → Any (HasKey name) entries
  tools-Any [] tool h named = absurd h
  tools-Any (entry ∷ entries) tool (inl same) named = inl (
      (tool_from_entry-name entry).0
        (subst (HasMember (codes "name") (Value.string name)) (sym same) named))
  tools-Any (entry ∷ entries) tool (inr h) named = inr (tools-Any entries tool h named)

  Any-tools :
      (entries : List TemplateCatalogEntry)
      → Any (HasKey name) entries
      → (tool : Value) × HasElement tool (json_array (map tool_from_entry entries))
        × HasMember (codes "name") (Value.string name) tool
  Any-tools [] h = absurd h
  Any-tools (entry ∷ entries) (inl k) =
      (tool_from_entry entry, inl refl, (tool_from_entry-name entry).1 k)
  Any-tools (entry ∷ entries) (inr h) =
      let (tool, among, named) = Any-tools entries h in (tool, inr among, named)

  IsListed-Any_iff :
      (entries : List TemplateCatalogEntry) (response : JsonRpcResponse)
      → response.result
        ≡ some (json_object ((codes "tools", json_array (map tool_from_entry entries)) ∷ []))
      → IsListed name response ↔ Any (HasKey name) entries
  IsListed-Any_iff entries response r = (
    λ (result, tools, tool, given, has, among, named).
        (let same = some-injective (sym given ∙ r) in
          elim (subst (HasMember (codes "tools") tools) same has) [
            | inl (_, all_tools) ↦
                tools-Any entries tool (subst (HasElement tool) (sym all_tools) among) named
            | inr none_left ↦ absurd none_left
          ]),
    λ h.
        (let (tool, among, named) = Any-tools entries h in
          (_, _, tool, r, inl (refl, refl), among, named)),
  )

map_id-result :
    (o : Option Value) (value : Value) (response : JsonRpcResponse)
    → map_id o (λ id. success id value) ≡ some response
    → response.result ≡ some value
unfolding success
map_id-result none value response h = cc
map_id-result (some id) value response h = ap JsonRpcResponse.result (sym (some-injective h))

module _ (outside : Outside) (state : McpState) (subject : Option Subject) where
  list-result :
      (request : JsonRpcRequest) (response : JsonRpcResponse)
      → request.jsonrpc ≡ jsonrpc_version
      → request.method ≡ codes "tools/list"
      → state.mode ≡ McpMode.full
      → (handle_request outside request state subject).1 ≡ some response
      → response.result
        ≡ some (
            json_object (
              (codes "tools", json_array (map tool_from_entry (visible_entries state subject)))
              ∷ []))
  unfolding handle_request dispatch build_tools tools_in_mode text_eq
  list-result request response version method mode =
      rw (version, method, mode) (λ h. map_id-result request.id _ response h)

  -- In full mode, with a catalog that has each entry under its own key, the response to tools/list has a
  -- tool of a name in lower case exactly when the lookup and the gates of tools/call let that name
  -- through for the same subject.
  pub handle_request-IsListed_iff :
      (name : Text) (request : JsonRpcRequest) (response : JsonRpcResponse)
      → IsKeyed state.catalog
      → to_ascii_lowercase name ≡ name
      → state.mode ≡ McpMode.full
      → request.jsonrpc ≡ jsonrpc_version
      → request.method ≡ codes "tools/list"
      → (handle_request outside request state subject).1 ≡ some response
      → ((entry : TemplateCatalogEntry) × (admitted_entry state subject name ≡ ok entry))
        ↔ IsListed name response
  handle_request-IsListed_iff name request response keyed lower mode version method h =
      let (to, from) = admitted-visible_iff state subject name keyed lower in
      let (seen, shown) =
        IsListed-Any_iff name (visible_entries state subject) response
          (list-result request response version method mode h) in
      (λ a. shown (to a), λ l. from (seen l))

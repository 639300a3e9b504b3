-- ===== src/Mcp/Tools.antt =====
-- The descriptions of tools: tool_from_entry, input_schema_for and build_discovery_tools of
-- src/mcp/mod.rs.
use earl.Prelude.{false, not, Option, none, some, List, [], ◌∷◌, ◌++◌, is_empty, if◌then◌else◌}
use earl.Text.{Text, codes, trim, is_blank}
use earl.Text.Keys.{Map, insert}
use earl.Json.{Value, json_object, json_array, Number}
use earl.Schema.{ParamSpec, ParamType}
use earl.Policy.{CommandMode}
use earl.Catalog.{TemplateCatalogEntry}

abbrev pub as_str : CommandMode → Text
as_str CommandMode.read = codes "read"
as_str CommandMode.write = codes "write"

unfoldable pub param_json_type : ParamType → Text
param_json_type ParamType.string = codes "string"
param_json_type ParamType.integer = codes "integer"
param_json_type ParamType.number = codes "number"
param_json_type ParamType.boolean = codes "boolean"
param_json_type ParamType.null = codes "null"
param_json_type ParamType.array = codes "array"
param_json_type ParamType.object = codes "object"

abbrev pub description_member : Option Text → List (Text × Value)
description_member none = []
description_member (some description) =
    if not (is_blank description)
    then (codes "description", Value.string (trim description)) ∷ []
    else []

abbrev pub default_member : Option Value → List (Text × Value)
default_member none = []
default_member (some value) = (codes "default", value) ∷ []

-- The schema of one parameter.
unfoldable pub param_schema : ParamSpec → Value
unfolding param_json_type is_blank trim
param_schema param = json_object (
    (codes "type", Value.string (param_json_type param.type)) ∷ description_member param.description
    ++ default_member param.default)

-- The map `properties` of the loop.
unfoldable pub properties_from : List ParamSpec → Map Value → Map Value
unfolding param_schema insert
properties_from [] properties = properties
properties_from (param ∷ params) properties =
    properties_from params (insert param.name (param_schema param) properties)

unfoldable pub required_of : List ParamSpec → List Value
required_of [] = []
required_of (param ∷ params) =
    let rest = required_of params in if param.required then Value.string param.name ∷ rest else rest

unfoldable pub input_schema_for : List ParamSpec → Value
unfolding properties_from required_of
input_schema_for params = json_object (
    (codes "type", Value.string (codes "object"))
    ∷ (codes "properties", json_object (properties_from params []))
    ∷ (codes "additionalProperties", Value.bool false)
    ∷ (if is_empty (required_of params)
        then []
        else (codes "required", json_array (required_of params)) ∷ []))

-- Two line feeds.
abbrev pub gap : Text
gap = 10 ∷ 10 ∷ []

unfoldable pub tool_description : TemplateCatalogEntry → Text
unfolding is_blank trim
tool_description entry =
    entry.summary
    ++ ((if not (is_blank entry.description) then gap ++ trim entry.description else [])
        ++ (gap ++ (codes "Mode: " ++ as_str entry.mode)))

unfoldable pub tool_from_entry : TemplateCatalogEntry → Value
unfolding tool_description input_schema_for
tool_from_entry entry = json_object (
    (codes "name", Value.string entry.key)
    ∷ (codes "title", Value.string entry.title)
    ∷ (codes "description", Value.string (tool_description entry))
    ∷ (codes "inputSchema", input_schema_for entry.template.params)
    ∷ [])

abbrev pub search_tool_name : Text
search_tool_name = codes "earl.tool_search"

abbrev pub call_tool_name : Text
call_tool_name = codes "earl.tool_call"

typed : Text → Text → List (Text × Value) → Value
typed type description more =
    json_object
      ((codes "type", Value.string type) ∷ (codes "description", Value.string description) ∷ more)

closed_schema : List (Text × Value) → Text → Value
closed_schema properties required = json_object (
    (codes "type", Value.string (codes "object"))
    ∷ (codes "properties", json_object properties)
    ∷ (codes "required", json_array (Value.string required ∷ []))
    ∷ (codes "additionalProperties", Value.bool false)
    ∷ [])

unfoldable pub build_discovery_tools : List Value
unfolding typed closed_schema
build_discovery_tools =
    json_object (
      (codes "name", Value.string search_tool_name)
      ∷ (codes "title", Value.string (codes "Search Earl Tools"))
      ∷ (
        codes "description",
        Value.string (
            codes
              "Find matching Earl template tools by natural-language query and optional filters."),
      )
      ∷ (
        codes "inputSchema",
        closed_schema
            ((
              codes "query",
              typed (codes "string")
                  (codes "Natural-language intent to match against tool metadata.") [],
            )
              ∷ (
                codes "limit",
                typed (codes "integer") (codes "Maximum matches to return (1-50).")
                    ((codes "default", Value.number (Number.pos_int 10)) ∷ []),
              )
              ∷ (
                codes "mode",
                json_object (
                    (codes "type", Value.string (codes "string"))
                    ∷ (
                      codes "enum",
                      json_array (Value.string (codes "read") ∷ Value.string (codes "write") ∷ []),
                    )
                    ∷ (codes "description", Value.string (codes "Optional mode filter."))
                    ∷ []),
              )
              ∷ (
                codes "provider",
                typed (codes "string") (codes "Optional provider filter (for example `github`).")
                    [],
              )
              ∷ (codes "category", typed (codes "string") (codes "Optional category filter.") [])
              ∷ [])
            (codes "query"),
      )
      ∷ [])
    ∷ json_object (
        (codes "name", Value.string call_tool_name)
        ∷ (codes "title", Value.string (codes "Invoke Earl Tool"))
        ∷ (
          codes "description",
          Value.string (codes "Execute a discovered Earl template tool by name."),
        )
        ∷ (
          codes "inputSchema",
          closed_schema
              ((
                codes "name",
                typed (codes "string")
                    (codes "Exact template tool name returned by earl.tool_search.") [],
              )
                ∷ (
                  codes "arguments",
                  typed (codes "object") (codes "Arguments for the selected template tool.")
                      ((codes "default", json_object []) ∷ []),
                )
                ∷ [])
              (codes "name"),
        )
        ∷ [])
    ∷ []

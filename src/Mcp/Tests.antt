-- ===== src/Mcp/Tests.antt =====
-- A server with two tools for src/mcp/mod.rs, and instances of the theorems.
use earl.Prelude.{
  ◌≤◌, false, ◌≡◌, refl, ◌↔◌, ◌⊎◌, Option, none, some, List, [], ◌∷◌, length, is_empty, ◌++◌, All,
  ok, err, if◌then◌else◌, arith,
}
use earl.Text.{Text, codes, text_eq, trim, to_ascii_lowercase}
use earl.Text.Keys.{lookup}
use earl.Json.{Value, Number, json_object, json_array}
use earl.Policy.{CommandMode}
use earl.Schema.{default_result}
use earl.Schema.Commands.{bash, CommandTemplate}
use earl.Catalog.{TemplateScope, TemplateCatalogEntry, TemplateCatalog}
use earl.Mcp.{
  McpMode, McpState, JsonRpcRequest, JsonRpcResponse, RpcFailure, DiscoverySearchArgs, Outside,
}
use earl.Mcp.Search.{Ranked, max_discovery_limit, search_matches}
use earl.Mcp.Server.{handle_request, admitted_entry, visible_entries, jsonrpc_version}
use earl.Mcp.Gate.{IsGated, handle_request-IsGated}
use earl.Mcp.Tools.{tool_from_entry}
use earl.Mcp.Visible.{IsKeyed}
use earl.Mcp.Listing.{IsListed, handle_request-IsListed_iff}
use earl.Mcp.Frames.{Bytes, FrameError, read_stdio_frame}
use earl.Mcp.Session.{Codec, SessionError, run_stdio}
use earl.Mcp.Session.InOrder.{frames, answers, run_stdio-frames}
use earl.Mcp.Session.Ends.{run_stdio-ends}
use earl.Mcp.Ranking.{IsMatch, IsRanked, search_matches-IsRanked}
use earl.Mcp.Responses.{IsDecided, IsInitialized, handle_request-responses}

abbrev template : CommandMode → CommandTemplate
template mode = record {
  title = codes "Run";
  summary = codes "Run it";
  description = codes "Runs it";
  categories = [];
  annotations = record { mode = mode; secrets = []; allow_environment_protocol_switching = false };
  params = [];
  operation = bash (record {
    bash = record { script = codes "true"; env = none; cwd = none; sandbox = none };
    stream = false;
    transport = none;
  });
  result = default_result;
  environment_overrides = [];
}

abbrev entry : Text → Text → CommandMode → TemplateCatalogEntry
entry key command mode = record {
  key = key;
  provider = codes "sh";
  command = command;
  title = codes "Run";
  summary = codes "Run it";
  description = codes "Runs it";
  categories = [];
  mode = mode;
  source = record { path = codes "sh.hcl"; scope = TemplateScope.local };
  template = template mode;
  provider_environments = none;
}

abbrev look : TemplateCatalogEntry
look = entry (codes "sh.look") (codes "look") CommandMode.read

abbrev pub drop : TemplateCatalogEntry
drop = entry (codes "sh.drop") (codes "drop") CommandMode.write

-- The key has an upper-case letter.
abbrev shout : TemplateCatalogEntry
shout = entry (codes "sh.Shout") (codes "Shout") CommandMode.read

abbrev pub catalog : TemplateCatalog
catalog = record {
  entries = (codes "sh.drop", drop) ∷ (codes "sh.look", look) ∷ (codes "sh.Shout", shout) ∷ [];
}

abbrev state : McpState
state = record {
  catalog = catalog;
  mode = McpMode.full;
  auto_yes = false;
  policies = [];
  active_env = none;
}

-- The name of the tool is the whole of the parameters.
abbrev pub outside : Outside
outside = record {
  decode_initialize = λ params. some none;
  decode_tool_call = λ params. elim params [
    | Value.string name ↦ some (record { name = name; arguments = [] })
    | _ ↦ none
  ];
  decode_search = λ arguments. none;
  decode_invoke = λ arguments. none;
  perform = λ e arguments env. some (Value.string e.title);
  version = codes "1";
  score_number = λ score. Value.number (Number.pos_int score);
}

abbrev pub request : Text → JsonRpcRequest
request name = record {
  jsonrpc = jsonrpc_version;
  method = codes "tools/call";
  params = some (Value.string name);
  id = some Value.null;
}

abbrev pub answer : Option Value → Option RpcFailure → Option JsonRpcResponse
answer result error = some (record { id = Value.null; result = result; error = error })

-- A tool that writes is refused without --yes, and one whose key has an upper-case letter, which
-- tools/list shows, is not found.
call_tests :
    (handle_request outside (request (codes "SH.look")) state none
      ≡ (some (look, []), answer (some (Value.string (codes "Run"))) none))
    × (handle_request outside (request (codes "sh.drop")) state none
        ≡ (none, answer none (some RpcFailure.write_disabled)))
    × (visible_entries state none ≡ look ∷ shout ∷ [])
    × (handle_request outside (request (codes "sh.Shout")) state none
        ≡ (none, answer none (some (RpcFailure.unknown_tool (codes "sh.Shout")))))
unfolding handle_request visible_entries
call_tests = (refl, refl, refl, refl)

called : (handle_request outside (request (codes "SH.look")) state none).0 ≡ some (look, [])
unfolding handle_request
called = refl

handle_request-IsGated_example : IsGated state none (look, [])
handle_request-IsGated_example =
    handle_request-IsGated outside state none (request (codes "SH.look")) (look, []) called

handle_request-responses_example :
    (((handle_request outside (request (codes "sh.look")) state none).1 ≡ none)
      ↔ ((some Value.null ≡ none) ⊎ IsInitialized (request (codes "sh.look"))))
    × ((response : JsonRpcResponse)
        → (handle_request outside (request (codes "sh.look")) state none).1 ≡ some response
        → (some Value.null ≡ some response.id) × IsDecided response)
handle_request-responses_example =
    handle_request-responses outside state none (request (codes "sh.look"))

catalog-IsKeyed : IsKeyed catalog
unfolding lookup text_eq
catalog-IsKeyed = record {
  own_keys = (refl, (refl, (refl, tt)));
  distinct = (refl, (refl, (refl, tt)));
}

lower_test : to_ascii_lowercase (codes "sh.look") ≡ codes "sh.look"
unfolding to_ascii_lowercase
lower_test = refl

abbrev list_request : JsonRpcRequest
list_request = record {
  jsonrpc = jsonrpc_version;
  method = codes "tools/list";
  params = none;
  id = some Value.null;
}

abbrev tools : Value
tools =
    json_object
      ((codes "tools", json_array (tool_from_entry look ∷ tool_from_entry shout ∷ [])) ∷ [])

list_test : (handle_request outside list_request state none).1 ≡ answer (some tools) none
unfolding handle_request
list_test = refl

handle_request-IsListed_iff_example :
    ((e : TemplateCatalogEntry) × (admitted_entry state none (codes "sh.look") ≡ ok e))
    ↔ IsListed (codes "sh.look") (record { id = Value.null; result = some tools; error = none })
handle_request-IsListed_iff_example =
    handle_request-IsListed_iff outside state none (codes "sh.look") list_request
      (record { id = Value.null; result = some tools; error = none }) catalog-IsKeyed lower_test
      refl refl refl list_test

abbrev args : DiscoverySearchArgs
args = record {
  query = codes " look run ";
  limit = 1;
  mode = none;
  provider = none;
  category = none;
}

-- Halves: 4 for the key, 4 for the command and 3 + 2 + 1 for the words of the title, the summary and the
-- description.
abbrev matches : List Ranked
matches = (look, 14) ∷ []

search_test : search_matches state none args ≡ ok matches
unfolding search_matches
search_test = refl

search_matches-IsRanked_example :
    (length matches ≤ max_discovery_limit)
    × ((1 ≤ args.limit) → length matches ≤ args.limit)
    × All (IsMatch state none (trim args.query)) matches
    × IsRanked matches
search_matches-IsRanked_example = search_matches-IsRanked state none args matches search_test

-- A frame with headers and one that is a line.
frame_tests :
    (read_stdio_frame (codes "content-length: 2" ++ 10 ∷ 10 ∷ codes "{}x")
      ≡ ok (some (codes "{}"), codes "x"))
    × (read_stdio_frame (13 ∷ 10 ∷ codes "[1]" ++ 10 ∷ codes "y")
        ≡ ok (some (codes "[1]"), codes "y"))
    × (read_stdio_frame (codes "Content-Length: x" ++ 10 ∷ [])
        ≡ err FrameError.invalid_content_length)
    × (read_stdio_frame (10 ∷ []) ≡ ok (none, []))
unfolding read_stdio_frame
frame_tests = (refl, refl, refl, refl)

-- A frame is the name of the tool; a response is one byte.
abbrev codec : Codec
codec = record {
  from_slice = λ frame. if is_empty frame then none else some (request frame);
  to_vec = λ response. some (b'r' ∷ []);
}

abbrev input : Bytes
input = codes "sh.look" ++ 10 ∷ []

-- The only call of the session.
session_test : (run_stdio outside codec state input).calls ≡ (look, []) ∷ []
unfolding run_stdio
session_test = refl

run_stdio-ends_example :
    ¬ ((run_stdio outside codec state input).result ≡ err SessionError.out_of_fuel)
    × ¬ (
        (run_stdio outside codec state input).result
        ≡ err (SessionError.unreadable FrameError.out_of_fuel))
run_stdio-ends_example = run_stdio-ends outside codec state input

run_stdio-frames_example :
    run_stdio outside codec state (frames (codes "sh.look" ∷ codes "sh.drop" ∷ []))
    ≡ answers outside codec state (codes "sh.look" ∷ codes "sh.drop" ∷ [])
run_stdio-frames_example =
    run_stdio-frames outside codec state (codes "sh.look" ∷ codes "sh.drop" ∷ [])
      (omega arith, (omega arith, tt))

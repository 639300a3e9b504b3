-- ===== src/Lib.antt =====
-- A verification library for earl, a command line and MCP server that runs operations which are
-- written as HCL templates, so that an agent gives only parameter values. A template file is
-- parsed, validated and merged into a catalog; a call is parsed from the command line or from an
-- MCP request, checked against the access policy, bound to the parameters of its command, rendered
-- for the active environment and sent by a protocol executor, which asks the URL allowlist and the
-- SSRF guard before it connects; a streamed response is cut into events.
--
-- Which file models which part:
--   Policy       src/mcp/policy.rs (evaluate, filter_allowed, glob_matches), rules of src/config.rs
--   Ssrf         src/security/ssrf.rs (ensure_safe_ip, is_blocked_ip) and dns.rs
--   Allowlist    crates/earl-core/src/allowlist.rs (ensure_url_allowed, matches_rule)
--   Json         the values of serde_json, with the tests on them that the source calls
--   Schema       crates/earl-core/src/schema.rs, src/template/schema.rs and the schema.rs of
--                crates/earl-protocol-http, -grpc, -bash and -sql
--   Environments src/template/environments.rs (validate_env_name, select_for_env)
--   Expression   src/expression: ast.rs, binder.rs (bind_arguments), cli_args.rs (parse_cli_args)
--   Validator    src/template/validator.rs (validate_template_file and all that it calls)
--   Sse          crates/earl-protocol-http/src/sse.rs (SseParser: feed, flush)
--   Transport    src/protocol/transport.rs (resolve_transport)
--   Catalog      src/template/catalog.rs (get, upsert) and loader.rs (load_catalog_from_dirs,
--                load_file_into_catalog)
--   Decode       crates/earl-core/src/decode.rs (decode_response, infer_mode)
--   Http         crates/earl-protocol-http/src/executor.rs (redirects, bodies)
--   Executor     src/protocol/executor.rs (the attempts of execute_prepared_request)
--   Mcp          src/mcp/mod.rs: handlers (Server), search (Search), stdio (Frames, Session), HTTP
--                (Http); src/mcp/auth.rs (Auth)
--   Redactor     crates/earl-core/src/redact.rs (new, redact, redact_json)
--   Secrets      src/secrets/store.rs (the store in memory, require_secret)
--   Auth         src/auth: profiles.rs (resolve_profile), token_store.rs, oauth2.rs
--                (access_token_for_profile, refresh, logout)
--   Text         `str` of Rust as a list of code points with the methods that the source calls, maps
--                with text keys, and loops that consume a text
--   Prelude      names of the libraries, Boolean tests, lists, `Result` with `?`, `bail!` and `for`
-- Definitions keep the names of the source. A component's file holds its state and operations, the
-- files below it hold the proofs, and its Tests file holds runs and instances of the theorems.
--
-- Conventions. A method that changes an object returns the new object beside its result. An `Err`
-- is a value of the component's error type, with one constructor for each `bail!` or variant; the
-- wording of messages is left out. Machine integers are natural numbers, and what their width gives
-- is a hypothesis where it matters (Ssrf.IsValid). A `BTreeMap` is a list of bindings in the order
-- of its keys. Where the source walks bytes, so does the model (Text.bytes is UTF-8).
--
-- Loops. Loops over collections are structural recursions. The loops that cut a text at each
-- match, in extract_secret_refs, extract_args_refs, feed and redact, run on fuel of one more
-- than the length of the text; each round shortens the text, so that fuel suffices for every
-- text (Text.Scan.scan_all_lem is the equation of the loop, with no fuel in it). The loop over
-- redirects has the rounds of the source, one more than the hops, and so have the attempts of
-- requests and of secrets. The loops that read frames and serve a session have one unit more
-- than the bytes of the input, of which each round takes at least one; running out of fuel is an
-- error of its own, which the source does not have.
--
-- Parameters, for code of other crates: the parsers of floats and of JSON texts
-- (Expression.CliArgs.Parsers), Unicode's table of alphanumeric characters (the argument
-- is_alphanumeric of the validator), the DNS resolver (Ssrf.Dns), the file system and the parser
-- of HCL files for the loader (Catalog.TemplateFiles), the readers of response bytes
-- (Decode.Readers), the network and the parsers of reqwest (Http.Network, whose answers may
-- depend on all that was sent before), the executors of the other protocols and the extraction
-- of results (Executor.Outside), serde's decoders and the execution of a bound call
-- (Mcp.Outside, Mcp.Session.Codec), the crate jsonwebtoken with the client of the keys
-- (Mcp.Auth.Services), the encodings of base64 and url (Redactor.Encodings), the resolvers of
-- external secrets (Secrets.SecretResolver), and the endpoints and the keychain of OAuth
-- (Auth.Provider). A parsed `Url` is the record of the parts that are read.
--
-- Not modelled: what only performs input and output or calls other libraries (the executors of
-- gRPC, bash, SQL and the browser, streaming, keychain, resolvers of external secrets,
-- interactive OAuth flows, the web playground, rendering of Jinja templates, parsing of HCL),
-- the search index, and the doctor command. Of the MCP server, sockets and the audit log are
-- left out, and requests are served one at a time. Paths are split as on Unix.
pub mod Prelude
pub mod Text
pub mod Mcp
pub mod Policy
pub mod Ssrf
pub mod Allowlist
pub mod Http
pub mod Json
pub mod Schema
pub mod Catalog
pub mod Decode
pub mod Environments
pub mod Executor
pub mod Expression
pub mod Transport
pub mod Validator
pub mod Sse
pub mod Redactor
pub mod Secrets
pub mod Auth

-- ===== src/Schema.antt =====
-- The template data types of crates/earl-core/src/schema.rs. Maps of the source are association
-- lists in the order of their keys; machine integers are numbers.
pub mod Operations
pub mod Commands
pub use earl.Policy.{CommandMode}
use earl.Prelude.{ℕ, Bool, true, Option, List}
use earl.Text.{Text, codes}
use earl.Text.Keys.{Map}
use earl.Json.{Value}

pub data ParamType : Type 0 where
  string integer number boolean null array object : ParamType

-- The label that `Display` writes.
unfoldable pub label : ParamType → Text
label ParamType.string = codes "string"
label ParamType.integer = codes "integer"
label ParamType.number = codes "number"
label ParamType.boolean = codes "boolean"
label ParamType.null = codes "null"
label ParamType.array = codes "array"
label ParamType.object = codes "object"

pub record ParamSpec : Type 0 where
  pub name : Text
  pub type : ParamType
  pub required : Bool
  pub default : Option Value
  pub description : Option Text

pub data ApiKeyLocation : Type 0 where
  header query cookie : ApiKeyLocation

pub data AuthTemplate : Type 0 where
  none : AuthTemplate
  api_key : (location : ApiKeyLocation) (name secret : Text) → AuthTemplate
  bearer : (secret : Text) → AuthTemplate
  basic : (username password_secret : Text) → AuthTemplate
  o_auth2_profile : (profile : Text) → AuthTemplate

pub record MultipartPartTemplate : Type 0 where
  pub name : Text
  pub value : Option Text
  pub bytes_base64 : Option Text
  pub file_path : Option Text
  pub content_type : Option Text
  pub filename : Option Text

pub data BodyTemplate : Type 0 where
  none : BodyTemplate
  json : (value : Value) → BodyTemplate
  form_urlencoded : (fields : Map Value) → BodyTemplate
  multipart : (parts : List MultipartPartTemplate) → BodyTemplate
  raw_text : (value : Text) (content_type : Option Text) → BodyTemplate
  raw_bytes_base64 : (value : Text) (content_type : Option Text) → BodyTemplate
  file_stream : (path : Text) (content_type : Option Text) → BodyTemplate

pub record RedirectTemplate : Type 0 where
  pub follow : Bool
  pub max_hops : ℕ

pub record RetryTemplate : Type 0 where
  pub max_attempts : ℕ
  pub backoff_ms : ℕ
  pub retry_on_status : List ℕ

pub record TlsTemplate : Type 0 where
  pub min_version : Option Text

pub record TransportTemplate : Type 0 where
  pub timeout_ms : Option ℕ
  pub max_response_bytes : Option ℕ
  pub redirects : Option RedirectTemplate
  pub retry : Option RetryTemplate
  pub compression : Option Bool
  pub tls : Option TlsTemplate
  pub proxy_profile : Option Text

pub data ResultDecode : Type 0 where
  auto json text html xml binary : ResultDecode

pub data ResultExtract : Type 0 where
  json_pointer regex xpath css_selector : Text → ResultExtract

pub record ResultTemplate : Type 0 where
  pub decode : ResultDecode
  pub extract : Option ResultExtract
  pub output : Text
  pub result_alias : Option Text

abbrev pub default_result_output : Text
default_result_output = codes "{{ result }}"

abbrev pub default_result : ResultTemplate
default_result = record {
  decode = ResultDecode.auto;
  extract = Option.none;
  output = default_result_output;
  result_alias = Option.none;
}

abbrev pub default_follow_redirects : Bool
default_follow_redirects = true

abbrev pub default_redirect_hops : ℕ
default_redirect_hops = 5

abbrev pub default_backoff_ms : ℕ
default_backoff_ms = 250

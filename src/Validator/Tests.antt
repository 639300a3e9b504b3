-- ===== src/Validator/Tests.antt =====
-- A template file for src/template/validator.rs, and instances of the theorems.
use earl.Prelude.{ℕ, Bool, true, false, ◌≡◌, refl, none, some, List, [], ◌∷◌, All, ok, err}
use earl.Text.{Text, codes, is_ascii_alphanumeric}
use earl.Policy.{CommandMode}
use earl.Schema.{bearer, ParamType, ParamSpec, default_result}
use earl.Schema.Operations.{HttpOperationTemplate, BashOperationTemplate, SqlOperationTemplate}
use earl.Schema.Commands.{http, bash, CommandTemplate, TemplateFile}
use earl.Validator.{ValidationError}
use earl.Validator.Scan.{extract_secret_refs, extract_args_refs}
use earl.Validator.Protocols.{writable_paths, validate_bash_operation, validate_sql_operation}
use earl.Validator.Files.{validate_template_file}
use earl.Validator.Accepted.{IsGuardedFile, validate_template_file-IsGuarded}
use earl.Validator.Sandbox.{
  IsConfined, Lacks, validate_bash_operation-IsConfined, validate_sql_operation-Lacks,
}

abbrev alnum : ℕ → Bool
alnum c = is_ascii_alphanumeric c

abbrev http_operation : Text → HttpOperationTemplate
http_operation secret = record {
  method = codes "GET";
  url = codes "https://api.github.com/search?q={{ args.query }}";
  path = none;
  query = none;
  headers = none;
  cookies = none;
  auth = some (bearer secret);
  body = none;
  stream = false;
  transport = none;
}

abbrev bash_operation : Text → BashOperationTemplate
bash_operation path = record {
  bash = record {
    script = codes "echo {{ args.query }}";
    env = none;
    cwd = none;
    sandbox = some (record {
      network = none;
      writable_paths = some (path ∷ []);
      max_time_ms = none;
      max_output_bytes = none;
      max_memory_bytes = none;
      max_cpu_time_ms = none;
    });
  };
  stream = false;
  transport = none;
}

abbrev sql_operation : Text → SqlOperationTemplate
sql_operation query = record {
  sql = record { connection_secret = codes "db.url"; query = query; params = none; sandbox = none };
  transport = none;
}

abbrev params : List ParamSpec
params =
    record {
      name = codes "query";
      type = ParamType.string;
      required = true;
      default = none;
      description = none;
    }
    ∷ []

abbrev command : Text → Bool → CommandTemplate
command secret switching = record {
  title = codes "Search";
  summary = codes "Search";
  description = codes "Search";
  categories = [];
  annotations = record {
    mode = CommandMode.read;
    secrets = codes "github.token" ∷ [];
    allow_environment_protocol_switching = switching;
  };
  params = params;
  operation = http (http_operation secret);
  result = default_result;
  environment_overrides =
      (codes "local", record { operation = bash (bash_operation (codes "out")); result = none })
      ∷ [];
}

abbrev file : Text → Bool → TemplateFile
file secret switching = record {
  version = 1;
  provider = codes "github";
  categories = [];
  environments = none;
  commands = (codes "search", command secret switching) ∷ [];
}

accepted : validate_template_file alnum (file (codes "github.token") true) ≡ ok tt
unfolding validate_template_file
accepted = refl

refusals :
    (validate_template_file alnum (file (codes "other.token") true)
      ≡ err (ValidationError.undeclared_secret (codes "search") (codes "other.token")))
    × (validate_template_file alnum (file (codes "github.token") false)
        ≡ err (ValidationError.protocol_switch (codes "search") (codes "local")))
unfolding validate_template_file
refusals = (refl, refl)

scan_tests :
    (extract_secret_refs (codes "a {{ secrets.x.y | trim }} {{ secrets.z }}")
      ≡ codes "x.y" ∷ codes "z" ∷ [])
    × (extract_args_refs alnum (codes "{{ args.a_1 }}{{ args.b }} args.")
        ≡ codes "a_1" ∷ codes "b" ∷ [])
unfolding extract_secret_refs extract_args_refs
scan_tests = (refl, refl)

validate_template_file-IsGuarded_example : IsGuardedFile (file (codes "github.token") true)
validate_template_file-IsGuarded_example =
    validate_template_file-IsGuarded alnum (file (codes "github.token") true) accepted

bash_accepted : validate_bash_operation (codes "run") (bash_operation (codes "out/./logs")) ≡ ok tt
unfolding validate_bash_operation
bash_accepted = refl

validate_bash_operation-IsConfined_example :
    All IsConfined (writable_paths (bash_operation (codes "out/./logs")).bash.sandbox)
validate_bash_operation-IsConfined_example =
    validate_bash_operation-IsConfined (codes "run") (bash_operation (codes "out/./logs"))
      bash_accepted

abbrev query : Text
query = codes "select 1"

sql_accepted :
    validate_sql_operation (codes "q") (sql_operation query) (codes "db.url" ∷ []) ≡ ok tt
unfolding validate_sql_operation
sql_accepted = refl

validate_sql_operation-Lacks_example : Lacks query (codes "{{") × Lacks query (codes "}}")
validate_sql_operation-Lacks_example =
    validate_sql_operation-Lacks (codes "q") (sql_operation query) (codes "db.url" ∷ [])
      sql_accepted

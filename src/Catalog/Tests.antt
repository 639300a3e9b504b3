-- ===== src/Catalog/Tests.antt =====
-- Two directories with a file each for src/template/loader.rs, and instances of the theorems.
use earl.Prelude.{ℕ, Bool, false, ◌≡◌, refl, none, some, [], ◌∷◌, if◌then◌else◌, ok, err}
use earl.Text.{Text, codes, text_eq, is_ascii_alphanumeric}
use earl.Policy.{CommandMode}
use earl.Environments.{or_option}
use earl.Schema.{default_result}
use earl.Schema.Commands.{bash, CommandTemplate, TemplateFile}
use earl.Validator.{ValidationError}
use earl.Catalog.{
  TemplateScope, TemplateCatalogEntry, TemplateCatalog, TemplateFiles, empty, get, entry_of,
  load_files, load_catalog_from_dirs, validation_failed,
}
use earl.Catalog.Invariant.{IsSound, load_catalog_from_dirs-IsSound}
use earl.Catalog.Scopes.{load_catalog_from_dirs-get}

abbrev alnum : ℕ → Bool
alnum c = is_ascii_alphanumeric c

abbrev command : Text → CommandTemplate
command script = record {
  title = codes "Greet";
  summary = codes "Greet";
  description = codes "Greet";
  categories = codes "shell" ∷ codes "demo" ∷ [];
  annotations = record {
    mode = CommandMode.read;
    secrets = [];
    allow_environment_protocol_switching = false;
  };
  params = [];
  operation = bash (record {
    bash = record { script = script; env = none; cwd = none; sandbox = none };
    stream = false;
    transport = none;
  });
  result = default_result;
  environment_overrides = [];
}

-- The content of a file is its script.
abbrev template : Text → TemplateFile
template content = record {
  version = 1;
  provider = codes "sh";
  categories = codes "demo" ∷ [];
  environments = none;
  commands = (codes "greet", command content) ∷ [];
}

-- The file /g/a.hcl is global, l/b.hcl is local and l/c.hcl is blank.
abbrev fs : TemplateFiles
fs = record {
  read_to_string = λ path.
      (if text_eq path (codes "/g/a.hcl")
        then some (codes "echo global")
        else if text_eq path (codes "l/b.hcl")
        then some (codes "echo local")
        else if text_eq path (codes "l/c.hcl")
        then some []
        else none);
  parent = λ path. none;
  template_files_in_dir = λ dir.
      (if text_eq dir (codes "/g")
        then some (codes "/g/a.hcl" ∷ [])
        else if text_eq dir (codes "l")
        then some (codes "l/b.hcl" ∷ [])
        else some (codes "l/c.hcl" ∷ []));
  parse_template_hcl = λ content base_dir. some (template content);
}

abbrev entry : TemplateCatalogEntry
entry =
    entry_of (template (codes "echo local")) (codes "l/b.hcl") TemplateScope.local
      (codes "greet", command (codes "echo local"))

abbrev loaded : TemplateCatalog
loaded = record { entries = (codes "sh.greet", entry) ∷ [] }

load_tests :
    (load_catalog_from_dirs alnum fs (codes "/g") (codes "l") ≡ ok loaded)
    × (load_catalog_from_dirs alnum fs (codes "/g") (codes "bad")
        ≡ err (validation_failed (codes "l/c.hcl") (ValidationError.empty_script (codes "greet"))))
unfolding load_catalog_from_dirs
load_tests = (refl, refl)

categories_test : entry.categories ≡ codes "demo" ∷ codes "shell" ∷ []
unfolding entry_of
categories_test = refl

get_test : get (codes "sh.greet") loaded ≡ some entry
unfolding get text_eq
get_test = refl

listings :
    (fs.template_files_in_dir (codes "/g") ≡ some (codes "/g/a.hcl" ∷ []))
    × (fs.template_files_in_dir (codes "l") ≡ some (codes "l/b.hcl" ∷ []))
unfolding text_eq
listings = (refl, refl)

load_catalog_from_dirs-IsSound_example : IsSound (codes "sh.greet", entry)
load_catalog_from_dirs-IsSound_example =
    load_catalog_from_dirs-IsSound alnum fs (codes "/g") (codes "l") (codes "sh.greet") loaded entry
      load_tests.0 get_test

load_catalog_from_dirs-get_example :
    (global_part local_part : TemplateCatalog) × (load_files alnum fs TemplateScope.global
        (codes "/g/a.hcl" ∷ [])
        empty
      ≡ ok global_part)
    × (load_files alnum fs TemplateScope.local (codes "l/b.hcl" ∷ []) empty ≡ ok local_part)
    × ((key : Text) → get key loaded ≡ or_option (get key local_part) (get key global_part))
load_catalog_from_dirs-get_example =
    load_catalog_from_dirs-get alnum fs (codes "/g") (codes "l") (codes "/g/a.hcl" ∷ [])
      (codes "l/b.hcl" ∷ []) loaded listings.0 listings.1 load_tests.0

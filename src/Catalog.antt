-- ===== src/Catalog.antt =====
-- The catalog of commands and how it is loaded: src/template/catalog.rs and src/template/loader.rs.
-- A path is its text. Methods of the catalog return the new catalog.
pub mod Invariant
pub mod Scopes
pub mod Categories
mod Tests
use earl.Prelude.{
  ℕ, Bool, true, false, Option, none, some, List, [], ◌∷◌, ◌++◌, map, if◌then◌else◌, any, Result,
  ok, err, ◌>>=◌, or_fail,
}
use earl.Text.{Text, codes, text_eq}
use earl.Text.Keys.{Map, lookup, insert}
use earl.Policy.{CommandMode}
use earl.Schema.Commands.{ProviderEnvironments, CommandTemplate, TemplateFile}
use earl.Validator.{ValidationError}
use earl.Validator.Files.{validate_template_file}

pub data TemplateScope : Type 0 where
  local global : TemplateScope

pub record TemplateSource : Type 0 where
  pub path : Text
  pub scope : TemplateScope

pub record TemplateCatalogEntry : Type 0 where
  pub key : Text
  pub provider : Text
  pub command : Text
  pub title : Text
  pub summary : Text
  pub description : Text
  pub categories : List Text
  pub mode : CommandMode
  pub source : TemplateSource
  pub template : CommandTemplate
  pub provider_environments : Option ProviderEnvironments

pub record TemplateCatalog : Type 0 where
  pub entries : Map TemplateCatalogEntry

abbrev pub empty : TemplateCatalog
empty = record { entries = [] }

unfoldable pub get : Text → TemplateCatalog → Option TemplateCatalogEntry
unfolding lookup
get key catalog = lookup key catalog.entries

unfoldable pub upsert : Text → TemplateCatalogEntry → TemplateCatalog → TemplateCatalog
unfolding insert
upsert key entry catalog = record { entries = insert key entry catalog.entries }

-- `format!("{}.{}", provider, command_name)`.
abbrev pub key_of : Text → Text → Text
key_of provider command_name = provider ++ codes "." ++ command_name

-- The loop over the categories of a command, with the variable `categories` of the loader.
unfoldable pub merge_categories : List Text → List Text → List Text
unfolding any text_eq
merge_categories categories [] = categories
merge_categories categories (category ∷ more) =
    merge_categories
      (if any (λ c. text_eq c category) categories then categories else categories ++ category ∷ [])
      more

unfoldable pub entry_of :
    TemplateFile → Text → TemplateScope → Text × CommandTemplate → TemplateCatalogEntry
unfolding merge_categories
entry_of parsed path scope (command_name, template) = record {
  key = key_of parsed.provider command_name;
  provider = parsed.provider;
  command = command_name;
  title = template.title;
  summary = template.summary;
  description = template.description;
  categories = merge_categories parsed.categories template.categories;
  mode = template.annotations.mode;
  source = record { path = path; scope = scope };
  template = template;
  provider_environments = parsed.environments;
}

-- The loop over `parsed.commands`.
unfoldable pub upsert_commands :
    TemplateFile → Text → TemplateScope → Map CommandTemplate → TemplateCatalog → TemplateCatalog
unfolding upsert entry_of
upsert_commands parsed path scope [] catalog = catalog
upsert_commands parsed path scope ((command_name, template) ∷ commands) catalog =
    upsert_commands parsed path scope commands (
      upsert (key_of parsed.provider command_name)
        (entry_of parsed path scope (command_name, template)) catalog)

pub data LoadError : Type 0 where
  failed_listing failed_reading invalid_hcl : (path : Text) → LoadError
  validation_failed : (path : Text) → ValidationError → LoadError

-- What the loader asks of the file system and of the HCL parser: `fs::read_to_string`,
-- `Path::parent`, `template_files_in_dir` and `parse_template_hcl`.
pub record TemplateFiles : Type 0 where
  pub read_to_string : Text → Option Text
  pub parent : Text → Option Text
  pub template_files_in_dir : Text → Option (List Text)
  pub parse_template_hcl : Text → Text → Option TemplateFile

-- `.with_context(..)?` on a check.
abbrev pub or_invalid : Text → Result ValidationError (Unit {0}) → Result LoadError (Unit {0})
or_invalid path (ok u) = ok u
or_invalid path (err e) = err (validation_failed path e)

abbrev pub base_dir_of : Option Text → Text
base_dir_of none = codes "."
base_dir_of (some dir) = dir

module _ (is_alphanumeric : ℕ → Bool) (fs : TemplateFiles) where
  -- The first half of `load_file_into_catalog`: read, parse, validate.
  unfoldable pub read_template : Text → Result LoadError TemplateFile
  unfolding validate_template_file
  read_template path = do
    content ← or_fail (fs.read_to_string path) (failed_reading path)
    parsed ←
        or_fail (fs.parse_template_hcl content (base_dir_of (fs.parent path))) (invalid_hcl path)
    valid ← or_invalid path (validate_template_file is_alphanumeric parsed)
    ok parsed

  unfoldable pub load_file_into_catalog :
      Text → TemplateScope → TemplateCatalog → Result LoadError TemplateCatalog
  unfolding read_template upsert_commands
  load_file_into_catalog path scope catalog = do
    parsed ← read_template path
    ok (upsert_commands parsed path scope parsed.commands catalog)

  -- The loop over the files of one directory.
  unfoldable pub load_files :
      TemplateScope → List Text → TemplateCatalog → Result LoadError TemplateCatalog
  unfolding load_file_into_catalog
  load_files scope [] catalog = ok catalog
  load_files scope (file ∷ files) catalog =
      load_file_into_catalog file scope catalog >>= load_files scope files

  unfoldable pub load_catalog_from_dirs : Text → Text → Result LoadError TemplateCatalog
  unfolding load_files
  load_catalog_from_dirs global_dir local_dir = do
    global_files ← or_fail (fs.template_files_in_dir global_dir) (failed_listing global_dir)
    catalog ← load_files TemplateScope.global global_files empty
    local_files ← or_fail (fs.template_files_in_dir local_dir) (failed_listing local_dir)
    load_files TemplateScope.local local_files catalog

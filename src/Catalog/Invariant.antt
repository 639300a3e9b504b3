-- ===== src/Catalog/Invariant.antt =====
-- What every entry of a loaded catalog satisfies: src/template/loader.rs.
use earl.Prelude.{
  or_fail, Bool, inl, inr, Result-cases, arith, ℕ, ◌≡◌, refl, Option, some, List, [], ◌∷◌, All, ok,
  bind-eq_ok, ok-injective, subst,
}
use earl.Text.{Text}
use earl.Text.Keys.{Map, lookup-All_key, insert-All}
use earl.Environments.{select_for_env}
use earl.Schema.Commands.{CommandTemplate, TemplateFile}
use earl.Validator.Files.{validate_template_file}
use earl.Validator.Accepted.{IsGuarded, IsGuardedFile, validate_template_file-IsGuarded}
use earl.Catalog.{
  TemplateScope, TemplateCatalogEntry, TemplateCatalog, TemplateFiles, empty, get, upsert, key_of,
  entry_of, upsert_commands, or_invalid, read_template, load_file_into_catalog, load_files,
  load_catalog_from_dirs, failed_reading, failed_listing, invalid_hcl, base_dir_of,
}

abbrev pub IsGuardedCommand : CommandTemplate → Type 0
IsGuardedCommand cmd =
    (env : Option Text) → IsGuarded cmd (select_for_env cmd env).0 (select_for_env cmd env).1

-- An entry stands under its own key, which is made of its provider and its command, and its template
-- satisfies `IsGuarded` in every environment.
pub record IsSound (b : Text × TemplateCatalogEntry) : Type 0 where
  pub own_key : b.0 ≡ b.1.key
  pub full_key : b.1.key ≡ key_of b.1.provider b.1.command
  pub guarded : IsGuardedCommand b.1.template

abbrev pub AllSound : TemplateCatalog → Type 0
AllSound catalog = All IsSound catalog.entries

upsert_commands-AllSound :
    (parsed : TemplateFile) (path : Text) (scope : TemplateScope) (commands : Map CommandTemplate)
    (catalog : TemplateCatalog)
    → All (λ b. IsGuardedCommand b.1) commands
    → AllSound catalog
    → AllSound (upsert_commands parsed path scope commands catalog)
unfolding upsert_commands upsert entry_of
upsert_commands-AllSound parsed path scope [] catalog g h = h
upsert_commands-AllSound parsed path scope ((name, template) ∷ commands) catalog (g, gs) h =
    let entry = entry_of parsed path scope (name, template) in
    upsert_commands-AllSound parsed path scope commands _ gs (
      insert-All IsSound (key_of parsed.provider name) entry catalog.entries
        (record { own_key = refl; full_key = refl; guarded = g }) h)

module _ (is_alphanumeric : ℕ → Bool) (fs : TemplateFiles) where
  or_invalid-ok :
      (path : Text) (parsed : TemplateFile)
      → or_invalid path (validate_template_file is_alphanumeric parsed) ≡ ok tt
      → validate_template_file is_alphanumeric parsed ≡ ok tt
  or_invalid-ok path parsed h =
      elim (Result-cases (validate_template_file is_alphanumeric parsed)) [
        | inl (u, e) ↦ e
        | inr (e, refused) ↦ absurd (ground arith)
      ]

  read_template-IsGuarded :
      (path : Text) (parsed : TemplateFile)
      → read_template is_alphanumeric fs path ≡ ok parsed
      → IsGuardedFile parsed
  unfolding read_template
  read_template-IsGuarded path parsed h =
      let (content, _, h1) =
        bind-eq_ok (or_fail (fs.read_to_string path) (failed_reading path)) _ h in
      let (found, _, h2) =
        bind-eq_ok
          (or_fail (fs.parse_template_hcl content (base_dir_of (fs.parent path)))
            (invalid_hcl path))
          _ h1 in
      let (_, valid, h3) =
        bind-eq_ok (or_invalid path (validate_template_file is_alphanumeric found)) _ h2 in
      subst IsGuardedFile (ok-injective h3)
        (validate_template_file-IsGuarded is_alphanumeric found (or_invalid-ok path found valid))

  load_file-AllSound :
      (path : Text) (scope : TemplateScope) (catalog loaded : TemplateCatalog)
      → AllSound catalog
      → load_file_into_catalog is_alphanumeric fs path scope catalog ≡ ok loaded
      → AllSound loaded
  unfolding load_file_into_catalog
  load_file-AllSound path scope catalog loaded s h =
      let (parsed, read, done) = bind-eq_ok (read_template is_alphanumeric fs path) _ h in
      subst AllSound (ok-injective done) (
        upsert_commands-AllSound parsed path scope parsed.commands catalog
          (read_template-IsGuarded path parsed read) s)

  load_files-AllSound :
      (scope : TemplateScope) (files : List Text) (catalog loaded : TemplateCatalog)
      → AllSound catalog
      → load_files is_alphanumeric fs scope files catalog ≡ ok loaded
      → AllSound loaded
  unfolding load_files
  load_files-AllSound scope [] catalog loaded s h = subst AllSound (ok-injective h) s
  load_files-AllSound scope (file ∷ files) catalog loaded s h =
      let (next, first, rest) =
        bind-eq_ok (load_file_into_catalog is_alphanumeric fs file scope catalog) _ h in
      load_files-AllSound scope files next loaded
        (load_file-AllSound file scope catalog next s first) rest

  -- An entry that is found in a loaded catalog stands under its own key, which is its provider, a dot
  -- and its command; and in every environment the secrets that the authentication and the SQL connection
  -- of its operation name are declared by the command, the operation keeps the protocol unless the
  -- command opts in to switching, and its result has an output that is not blank.
  pub load_catalog_from_dirs-IsSound :
      (global_dir local_dir key : Text) (catalog : TemplateCatalog) (entry : TemplateCatalogEntry)
      → load_catalog_from_dirs is_alphanumeric fs global_dir local_dir ≡ ok catalog
      → get key catalog ≡ some entry
      → IsSound (key, entry)
  unfolding load_catalog_from_dirs get
  load_catalog_from_dirs-IsSound global_dir local_dir key catalog entry h found =
      let (globals, _, h1) =
        bind-eq_ok (or_fail (fs.template_files_in_dir global_dir) (failed_listing global_dir)) _
          h in
      let (base, loaded, h2) =
        bind-eq_ok (load_files is_alphanumeric fs TemplateScope.global globals empty) _ h1 in
      let (locals, _, h3) =
        bind-eq_ok (or_fail (fs.template_files_in_dir local_dir) (failed_listing local_dir)) _ h2 in
      lookup-All_key IsSound key catalog.entries
        (load_files-AllSound TemplateScope.local locals base catalog
          (load_files-AllSound TemplateScope.global globals empty base tt loaded) h3)
        found

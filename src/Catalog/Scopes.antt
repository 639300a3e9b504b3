-- ===== src/Catalog/Scopes.antt =====
-- Local templates in front of global ones: `load_catalog_from_dirs` of src/template/loader.rs.
use earl.Prelude.{
  or_fail, ℕ, Bool, true, false, ◌≡◌, refl, ap, sym, ◌∙◌, Option, none, some, List, [], ◌∷◌, ◌++◌,
  arith, if◌then◌else◌, ok, bind-eq_ok, ok-injective, subst,
}
use earl.Text.{Text, text_eq}
use earl.Text.Keys.{Map, lookup, lookup-insert}
use earl.Environments.{or_option}
use earl.Schema.Commands.{CommandTemplate, TemplateFile}
use earl.Catalog.{
  TemplateScope, TemplateCatalogEntry, TemplateCatalog, TemplateFiles, LoadError, empty, get,
  upsert, key_of, entry_of, upsert_commands, read_template, load_file_into_catalog, load_files,
  load_catalog_from_dirs, failed_listing,
}

-- A load is a sequence of upserts.
abbrev Upserts : Type 0
Upserts = List (Text × TemplateCatalogEntry)

abbrev apply : Upserts → TemplateCatalog → TemplateCatalog
apply [] catalog = catalog
apply ((key, entry) ∷ more) catalog = apply more (upsert key entry catalog)

apply-append :
    (us vs : Upserts) (catalog : TemplateCatalog)
    → apply (us ++ vs) catalog ≡ apply vs (apply us catalog)
apply-append [] vs catalog = refl
apply-append ((key, entry) ∷ us) vs catalog = apply-append us vs (upsert key entry catalog)

get-upsert :
    (key j : Text) (entry : TemplateCatalogEntry) (catalog : TemplateCatalog)
    → get j (upsert key entry catalog) ≡ (if text_eq key j then some entry else get j catalog)
unfolding get upsert
get-upsert key j entry catalog = lookup-insert key j entry catalog.entries

or-upsert :
    {A : Type 0} (later found : Option A) (b : Bool) (entry : A)
    → or_option later (if b then some entry else found)
      ≡ or_option (or_option later (if b then some entry else none)) found
or-upsert none found true entry = refl
or-upsert none found false entry = refl
or-upsert (some a) found b entry = refl

get-empty : (j : Text) → get j empty ≡ none
unfolding get lookup
get-empty j = refl

-- What was upserted is in front of what was there.
get-apply :
    (j : Text) (us : Upserts) (catalog : TemplateCatalog)
    → get j (apply us catalog) ≡ or_option (get j (apply us empty)) (get j catalog)
get-apply j [] catalog = rw (get-empty j) refl
get-apply j ((key, entry) ∷ us) catalog =
    rw
      (
        get-apply j us (upsert key entry catalog),
        get-apply j us (upsert key entry empty),
        get-upsert key j entry catalog,
        get-upsert key j entry empty,
        get-empty j,
      )
      (or-upsert (get j (apply us empty)) (get j catalog) (text_eq key j) entry)

upserts_of : TemplateFile → Text → TemplateScope → Map CommandTemplate → Upserts
upserts_of parsed path scope [] = []
upserts_of parsed path scope ((name, template) ∷ commands) =
    (key_of parsed.provider name, entry_of parsed path scope (name, template))
    ∷ upserts_of parsed path scope commands

upsert_commands-apply :
    (parsed : TemplateFile) (path : Text) (scope : TemplateScope) (commands : Map CommandTemplate)
    (catalog : TemplateCatalog)
    → upsert_commands parsed path scope commands catalog
      ≡ apply (upserts_of parsed path scope commands) catalog
unfolding upsert_commands upserts_of
upsert_commands-apply parsed path scope [] catalog = refl
upsert_commands-apply parsed path scope ((name, template) ∷ commands) catalog =
    upsert_commands-apply parsed path scope commands _

module _ (is_alphanumeric : ℕ → Bool) (fs : TemplateFiles) where
  load_file-apply :
      (path : Text) (scope : TemplateScope) (catalog loaded : TemplateCatalog)
      → load_file_into_catalog is_alphanumeric fs path scope catalog ≡ ok loaded
      → (us : Upserts) × ((from : TemplateCatalog)
          → load_file_into_catalog is_alphanumeric fs path scope from ≡ ok (apply us from))
  unfolding load_file_into_catalog
  load_file-apply path scope catalog loaded h =
      let (parsed, read, _) = bind-eq_ok (read_template is_alphanumeric fs path) _ h in
      (
        upserts_of parsed path scope parsed.commands,
        λ from.
            rw (read, load_file_into_catalog)
              (ap (λ c. ok c) (upsert_commands-apply parsed path scope parsed.commands from)),
      )

  load_files-apply :
      (scope : TemplateScope) (files : List Text) (catalog loaded : TemplateCatalog)
      → load_files is_alphanumeric fs scope files catalog ≡ ok loaded
      → (us : Upserts) × ((from : TemplateCatalog)
          → load_files is_alphanumeric fs scope files from ≡ ok (apply us from))
  unfolding load_files
  load_files-apply scope [] catalog loaded h = ([], λ from. refl)
  load_files-apply scope (file ∷ files) catalog loaded h =
      let (next, first, rest) =
        bind-eq_ok (load_file_into_catalog is_alphanumeric fs file scope catalog) _ h in
      let (us, step) = load_file-apply file scope catalog next first in
      let (vs, steps) = load_files-apply scope files next loaded rest in
      (us ++ vs, λ from. rw (step from, steps (apply us from), apply-append us vs from) refl)

  or_fail-ok :
      {listing : Option (List Text)} {files found : List Text} (e : LoadError)
      → listing ≡ some files
      → or_fail listing e ≡ ok found
      → found ≡ files
  or_fail-ok e h k = ground arith

  -- When the catalog of two directories loads, each directory loads by itself, and a key is looked up
  -- in the local templates first and in the global ones only if it is not there.
  pub load_catalog_from_dirs-get :
      (global_dir local_dir : Text) (globals locals : List Text) (catalog : TemplateCatalog)
      → fs.template_files_in_dir global_dir ≡ some globals
      → fs.template_files_in_dir local_dir ≡ some locals
      → load_catalog_from_dirs is_alphanumeric fs global_dir local_dir ≡ ok catalog
      → (global_part local_part : TemplateCatalog) × (load_files is_alphanumeric fs
            TemplateScope.global globals empty
          ≡ ok global_part)
        × (load_files is_alphanumeric fs TemplateScope.local locals empty ≡ ok local_part)
        × ((key : Text) → get key catalog ≡ or_option (get key local_part) (get key global_part))
  unfolding load_catalog_from_dirs
  load_catalog_from_dirs-get global_dir local_dir globals locals catalog g l h =
      let (globals1, listed, h1) =
        bind-eq_ok (or_fail (fs.template_files_in_dir global_dir) (failed_listing global_dir)) _
          h in
      let (base, h_base, h2) =
        bind-eq_ok (load_files is_alphanumeric fs TemplateScope.global globals1 empty) _ h1 in
      let (locals1, listed1, h3) =
        bind-eq_ok (or_fail (fs.template_files_in_dir local_dir) (failed_listing local_dir)) _ h2 in
      let (us, loads) = load_files-apply TemplateScope.local locals1 base catalog h3 in
      let same_globals = or_fail-ok (failed_listing global_dir) g listed in
      let same_locals = or_fail-ok (failed_listing local_dir) l listed1 in
      let whole : catalog ≡ apply us base = ok-injective (sym h3 ∙ loads base) in
      (
        base,
        apply us empty,
        subst (λ files. load_files is_alphanumeric fs TemplateScope.global files empty ≡ ok base)
            same_globals h_base,
        subst
            (λ files.
              load_files is_alphanumeric fs TemplateScope.local files empty ≡ ok (apply us empty))
            same_locals (loads empty),
        λ key. ap (get key) whole ∙ get-apply key us base,
      )

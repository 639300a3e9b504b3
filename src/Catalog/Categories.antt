-- ===== src/Catalog/Categories.antt =====
-- The categories of an entry: the merge in `load_file_into_catalog` of src/template/loader.rs.
use earl.Prelude.{
  Bool, true, ◌||◌, ◌≡◌, ap, sym, ◌∙◌, inl, inr, Bool-cases, List, [], ◌∷◌, ◌++◌, any, arith,
  if◌then◌else◌,
}
use earl.Text.{Text, text_eq}
use earl.Text.Laws.{text_eq_iff}
use earl.Validator.Parts.{includes}
use earl.Catalog.{merge_categories}

any-snoc : (p : Text → Bool) (xs : List Text) (y : Text) → any p (xs ++ y ∷ []) ≡ (any p xs || p y)
unfolding any
any-snoc p [] y = ground arith
any-snoc p (x ∷ xs) y = ground (arith, any-snoc p xs y)

includes-eq : (cs : List Text) (c d : Text) → c ≡ d → includes cs c ≡ includes cs d
includes-eq cs c d e = ap (includes cs) e

-- One round of the loop adds its category and no other.
includes-round :
    (cs : List Text) (d c : Text)
    → includes (if any (λ x. text_eq x d) cs then cs else cs ++ d ∷ []) c
      ≡ (includes cs c || text_eq d c)
unfolding includes
includes-round cs d c = elim (Bool-cases (includes cs d)) [
  | inl here ↦ elim (Bool-cases (text_eq d c)) [
    | inl same ↦
        (let found : includes cs c ≡ true =
            sym (includes-eq cs d c ((text_eq_iff d c).0 same)) ∙ here in
          rw (here, same) (found ∙ ap (λ b. b || true) (sym found)))
    | inr other ↦ ground arith
  ]
  | inr new ↦ rw new (any-snoc (λ x. text_eq x c) cs d)
]

-- An entry has the categories of its file and of its command, and no others.
includes-merge_categories :
    (categories more : List Text) (c : Text)
    → includes (merge_categories categories more) c ≡ (includes categories c || includes more c)
unfolding merge_categories includes any
includes-merge_categories categories [] c = ground arith
includes-merge_categories categories (d ∷ more) c =
    includes-merge_categories
      (if any (λ x. text_eq x d) categories then categories else categories ++ d ∷ []) more c
    ∙ ground (arith, includes-round categories d c)

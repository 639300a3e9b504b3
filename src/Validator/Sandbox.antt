-- ===== src/Validator/Sandbox.antt =====
-- Where an accepted bash operation may write, and what an accepted SQL query holds:
-- src/template/validator.rs.
use earl.Prelude.{
  ℕ, false, ◌||◌, ◌≡◌, refl, ap, ◌≢◌, inl, inr, none, some, List, [], ◌∷◌, ◌++◌, arith,
  if◌then◌else◌, All, All-map, Bool-cases, ok, each_iff, any,
}
use earl.Text.{Text, codes, text_eq, contains, split_once, strip_prefix}
use earl.Text.Laws.{strip_prefix-append}
use earl.Schema.Operations.{BashOperationTemplate, SqlOperationTemplate}
use earl.Validator.Parts.{includes}
use earl.Validator.Protocols.{
  components, is_absolute, validate_writable_path, writable_paths, validate_bash_operation,
  validate_sql_operation,
}

-- The directory that a path leads to from `dir`, both with the innermost name first: an empty part
-- and "." stay, ".." goes up, another name goes down.
abbrev pub walk : List Text → List Text → List Text
walk dir [] = dir
walk dir (part ∷ parts) =
    walk
      (if text_eq part [] || text_eq part (codes ".")
        then dir
        else if text_eq part (codes "..")
        then elim dir [ [] ↦ [] | _ ∷ up ↦ up ]
        else part ∷ dir)
      parts

-- A directory below another, or the same.
abbrev pub Below : List Text → List Text → Type 0
Below dir target = (inner : List Text) × (target ≡ inner ++ dir)

walk-Below :
    (dir here : List Text) (parts : List Text)
    → Below dir here
    → includes parts (codes "..") ≡ false
    → Below dir (walk here parts)
unfolding includes any
walk-Below dir here [] b h = b
walk-Below dir here (part ∷ parts) (inner, e) h =
    elim (Bool-cases (text_eq part [] || text_eq part (codes "."))) [
      | inl stay ↦ rw stay (walk-Below dir here parts (inner, e) (ground arith))
      | inr go ↦
          (let not_up : text_eq part (codes "..") ≡ false = ground arith in
            rw (go, not_up)
              (walk-Below dir (part ∷ here) parts (part ∷ inner, ap (λ t. part ∷ t) e)
                (ground arith)))
    ]

-- Inside whatever directory it starts from, without an anchor at the root.
abbrev pub IsConfined : Text → Type 0
IsConfined path =
    (is_absolute path ≡ false) × ((dir : List Text) → Below dir (walk dir (components path)))

writable_path-IsConfined :
    (command_name path : Text) → validate_writable_path command_name path ≡ ok tt → IsConfined path
unfolding validate_writable_path
writable_path-IsConfined command_name path h =
    (ground arith, λ dir. walk-Below dir dir (components path) ([], refl) (ground arith))

-- Every writable path of an accepted bash operation, as it is written in the template, is relative and,
-- resolved from any directory, stays in that directory or below it.
pub validate_bash_operation-IsConfined :
    (command_name : Text) (operation : BashOperationTemplate)
    → validate_bash_operation command_name operation ≡ ok tt
    → All IsConfined (writable_paths operation.bash.sandbox)
unfolding validate_bash_operation
validate_bash_operation-IsConfined command_name operation h =
    let checked =
      (each_iff (validate_writable_path command_name) (writable_paths operation.bash.sandbox)).0
        (ground arith) in
    All-map _ _ (writable_paths operation.bash.sandbox) (writable_path-IsConfined command_name)
      checked

-- A text with no occurrence of another one.
abbrev pub Lacks : Text → Text → Type 0
Lacks s p = (before after : Text) → s ≢ before ++ (p ++ after)

split_once-here : (p s r : Text) → strip_prefix p s ≡ some r → split_once p s ≢ none
unfolding split_once
split_once-here p [] r h e = ground arith
split_once-here p (c ∷ s) r h e = ground arith

split_once-tail :
    (p : Text) (c : ℕ) (s : Text) → split_once p (c ∷ s) ≡ none → split_once p s ≡ none
unfolding split_once
split_once-tail p c s e = ground arith

split_once-found : (p before after : Text) → split_once p (before ++ (p ++ after)) ≢ none
split_once-found p [] after e = split_once-here p (p ++ after) after (strip_prefix-append p after) e
split_once-found p (c ∷ before) after e =
    split_once-found p before after (split_once-tail p c (before ++ (p ++ after)) e)

contains-Lacks : (s p : Text) → contains s p ≡ false → Lacks s p
unfolding contains
contains-Lacks s p h before after e = split_once-found p before after (ground arith)

-- The query of an accepted SQL operation holds neither "{{" nor "}}" at any place. The statements of
-- templates, between "{%" and "%}", are not excluded.
pub validate_sql_operation-Lacks :
    (command_name : Text) (operation : SqlOperationTemplate) (allowed_secrets : List Text)
    → validate_sql_operation command_name operation allowed_secrets ≡ ok tt
    → Lacks operation.sql.query (codes "{{") × Lacks operation.sql.query (codes "}}")
unfolding validate_sql_operation
validate_sql_operation-Lacks command_name operation allowed_secrets h = (
  contains-Lacks operation.sql.query (codes "{{") (ground arith),
  contains-Lacks operation.sql.query (codes "}}") (ground arith),
)

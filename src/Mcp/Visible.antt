-- ===== src/Mcp/Visible.antt =====
-- The entries that a subject sees and those that it may call: the filter of build_tools and the gates of
-- handle_tools_call in src/mcp/mod.rs.
use earl.Prelude.{
  Bool, true, false, not, ◌||◌, ◌≡◌, refl, ap, ◌∙◌, sym, ◌↔◌, inl, inr, Bool-cases, Option, none,
  some, [], ◌∷◌, ok, Any, All, subst, arith,
}
use earl.Text.{Text, text_eq, to_ascii_lowercase}
use earl.Text.Laws.{text_eq_iff, text_eq_refl}
use earl.Text.Keys.{Map, lookup, lookup-All_key}
use earl.Policy.{evaluate}
use earl.Catalog.{TemplateCatalog, TemplateCatalogEntry, get}
use earl.Mcp.{McpState, Subject, accessible, is_write, filter, values}
use earl.Mcp.Server.{admitted_entry, visible_entries}
use earl.Mcp.Gate.{Permits, is_allow_iff, admitted_entry-IsAdmitted, IsAdmitted-admitted_entry}

abbrev OwnKey : Text × TemplateCatalogEntry → Type 0
OwnKey b = b.0 ≡ b.1.key

abbrev DistinctKeys : Map TemplateCatalogEntry → Type 0
DistinctKeys [] = Unit
DistinctKeys ((key, entry) ∷ more) = (lookup key more ≡ none) × DistinctKeys more

-- A map, and each entry under its own key.
pub record IsKeyed (catalog : TemplateCatalog) : Type 0 where
  pub own_keys : All OwnKey catalog.entries
  pub distinct : DistinctKeys catalog.entries

abbrev pub HasKey : Text → TemplateCatalogEntry → Type 0
HasKey name entry = entry.key ≡ name

module _ (p : TemplateCatalogEntry → Bool) (name : Text) where
  lookup-Any :
      (m : Map TemplateCatalogEntry) (entry : TemplateCatalogEntry)
      → entry.key ≡ name
      → lookup name m ≡ some entry
      → p entry ≡ true
      → Any (HasKey name) (filter p (values m))
  unfolding lookup filter values
  lookup-Any [] entry k h v = absurd (ground arith)
  lookup-Any ((key, e) ∷ m) entry k h v = elim (Bool-cases (text_eq key name)) [
    | inl here ↦
        (let same : e ≡ entry = ground arith in
          rw (ap p same ∙ v) (inl (ap TemplateCatalogEntry.key same ∙ k)))
    | inr later ↦
        (let rest = lookup-Any m entry k (ground arith) v in
          elim (Bool-cases (p e)) [ inl shown ↦ rw shown (inr rest) | inr hidden ↦ rw hidden rest ])
  ]

  -- What is found behind a binding of another key is found.
  behind :
      (key : Text) (e : TemplateCatalogEntry) (m : Map TemplateCatalogEntry)
      → lookup key m ≡ none
      → ((entry : TemplateCatalogEntry) × (lookup name m ≡ some entry) × (p entry ≡ true))
      → (entry : TemplateCatalogEntry) × (lookup name ((key, e) ∷ m) ≡ some entry)
        × (p entry ≡ true)
  unfolding lookup
  behind key e m fresh (entry, found, seen) = elim (Bool-cases (text_eq key name)) [
    | inr other ↦ (entry, rw other found, seen)
    | inl same ↦
        (let clash : none ≡ some entry =
            sym fresh ∙ ap (λ k. lookup k m) ((text_eq_iff key name).0 same) ∙ found in
          absurd (cc))
  ]

  Any-lookup :
      (m : Map TemplateCatalogEntry)
      → All OwnKey m
      → DistinctKeys m
      → Any (HasKey name) (filter p (values m))
      → (entry : TemplateCatalogEntry) × (lookup name m ≡ some entry) × (p entry ≡ true)
  unfolding lookup filter values
  Any-lookup [] own distinct = λ h. absurd h
  Any-lookup ((key, e) ∷ m) (o, own) (fresh, distinct) = elim (Bool-cases (p e)) [
    | inr hidden ↦ rw hidden (λ h. behind key e m fresh (Any-lookup m own distinct h))
    | inl shown ↦ rw shown (λ h. elim h [
      | inl k ↦ (e, rw (ap (λ j. text_eq j name) (o ∙ k) ∙ text_eq_refl name) refl, shown)
      | inr rest ↦ behind key e m fresh (Any-lookup m own distinct rest)
    ])
  ]

write_cases :
    (write yes_flag : Bool) → (write ≡ true → yes_flag ≡ true) ↔ ((yes_flag || not write) ≡ true)
write_cases true true = (λ _. refl, λ _ _. refl)
write_cases true false = (λ h. h refl, λ h _. h)
write_cases false true = (λ _. refl, λ _ _. refl)
write_cases false false = (λ _. refl, λ _ h. cc)

pub Permits-accessible_iff :
    (state : McpState) (subject : Option Subject) (entry : TemplateCatalogEntry)
    → Permits state subject entry.key entry ↔ (accessible state subject entry ≡ true)
unfolding accessible
Permits-accessible_iff state none entry = write_cases (is_write entry.mode) state.auto_yes
Permits-accessible_iff state (some subject) entry =
    let (to, from) = is_allow_iff (evaluate state.policies subject.sub entry.key entry.mode) in
    (from, to)

-- The lookup and the gates let a name through exactly when an entry of that key is visible.
pub admitted-visible_iff :
    (state : McpState) (subject : Option Subject) (name : Text)
    → IsKeyed state.catalog
    → to_ascii_lowercase name ≡ name
    → ((entry : TemplateCatalogEntry) × (admitted_entry state subject name ≡ ok entry))
      ↔ Any (HasKey name) (visible_entries state subject)
unfolding visible_entries get
admitted-visible_iff state subject name keyed lower = (
  λ (entry, h).
      (let a = admitted_entry-IsAdmitted state subject name entry h in
        let found = rw lower at a.found in
        let own : name ≡ entry.key =
          lookup-All_key OwnKey name state.catalog.entries keyed.own_keys found in
        lookup-Any (accessible state subject) name state.catalog.entries entry (sym own) found (
          (Permits-accessible_iff state subject entry).0
            (subst (λ k. Permits state subject k entry) (lower ∙ own) a.permitted))),
  λ listed.
      (let (entry, found, seen) =
          Any-lookup (accessible state subject) name state.catalog.entries keyed.own_keys
            keyed.distinct listed in
        let own : name ≡ entry.key =
          lookup-All_key OwnKey name state.catalog.entries keyed.own_keys found in
        (
          entry,
          IsAdmitted-admitted_entry state subject name entry (record {
            found = rw lower found;
            permitted =
                subst (λ k. Permits state subject k entry) (sym (lower ∙ own))
                  ((Permits-accessible_iff state subject entry).1 seen);
          }),
        )),
)

-- ===== src/Marking/Fields.antt =====
-- apps/frontend/src/domain/templateMarking.ts: the names of templates, the fields of the catalog and
-- which of them a template uses.
use slomp.Prelude.{
  ℕ, ◌+◌, ◌-◌, Bool, ◌&&◌, ◌||◌, not, Option, none, some, List, [], ◌∷◌, ◌++◌, map, if◌then◌else◌,
  ◌==◌, nat_eq, list_eq, ltb, leb, length, filter, any, includes, set_from, get, get_or, codes,
  drop,
}
use slomp.Prelude.Texts.{Text, slice, index_of, trim}
use slomp.Templates.Document.{Selection, FieldKind, is_table_row}

abbrev pub max_template_name_length : ℕ
max_template_name_length = 120

pub data TemplateNameProblem : Type 0 where
  empty too_long forbidden : TemplateNameProblem

-- The `i` flag of a pattern of ASCII letters.
abbrev pub to_lower : ℕ → ℕ
to_lower c = if leb b'A' c && leb c b'Z' then c + 32 else c

pub template_name_of : Text → Text
template_name_of file_name =
    let stem = length file_name - 5 in
    if leb 5 (length file_name) && map to_lower (drop stem file_name) == codes ".docx"
    then slice 0 stem file_name
    else file_name

abbrev pub is_forbidden : ℕ → Bool
is_forbidden c = c == b'/' || c == 92 || leb c 31 || c == 127

pub template_name_problem : Text → Option TemplateNameProblem
unfolding template_name_of trim
template_name_problem name =
    let trimmed = trim (template_name_of (trim name)) in
    if length trimmed == 0
    then some empty
    else if ltb max_template_name_length (length trimmed)
    then some too_long
    else if any is_forbidden trimmed
    then some forbidden
    else none

pub record MarkerCatalogEntry : Type 0 where
  pub key : Text
  pub label : Text
  pub description : Text
  pub required : Bool
  pub kind : FieldKind

abbrev pub is_table_loop : MarkerCatalogEntry → Bool
is_table_loop entry = is_table_row entry.kind && not (includes entry.key b'.')

abbrev pub is_table_field : MarkerCatalogEntry → Bool
is_table_field entry = is_table_row entry.kind && includes entry.key b'.'

pub loop_of : Text → Option Text
loop_of field = elim (index_of field b'.') [ none ↦ none | some dot ↦ some (slice 0 dot field) ]

-- What a mark of the field adds: the field, and its loop where that is not the empty text.
pub names_of : Text → List Text
unfolding loop_of
names_of field = elim (loop_of field) [
  | none ↦ field ∷ []
  | some loop ↦ if length loop == 0 then field ∷ [] else field ∷ loop ∷ []
]

-- The loop of usedFields.
pub use_fields : List Text → List Selection → List Text
unfolding names_of
use_fields used [] = used
use_fields used (m ∷ marks) = use_fields (set_from used (names_of m.field)) marks

pub used_fields : List Selection → List Selection → List Text
unfolding use_fields
used_fields selections applied = use_fields [] (applied ++ selections)

pub record RequiredProgress : Type 0 where
  pub done : ℕ
  pub total : ℕ
  pub missing : List MarkerCatalogEntry

pub required_progress : List MarkerCatalogEntry → List Text → RequiredProgress
required_progress catalog used =
    let required = filter (λ entry. entry.required) catalog in
    let missing = filter (λ entry. not (includes used entry.key)) required in
    record { done = length required - length missing; total = length required; missing = missing }

-- `counts.get(key) ?? 0`
abbrev pub count_of : List (Text × ℕ) → Text → ℕ
count_of counts key = get_or (get counts key) 0

pub split_by_assigned :
    List MarkerCatalogEntry → List (Text × ℕ) → List MarkerCatalogEntry × List MarkerCatalogEntry
split_by_assigned entries counts = (
  filter (λ entry. count_of counts entry.key == 0) entries,
  filter (λ entry. ltb 0 (count_of counts entry.key)) entries,
)

-- The key under which a field is listed: itself, or its loop where the catalog has no such entry.
pub listed_key : List MarkerCatalogEntry → Text → Text
unfolding loop_of
listed_key catalog field =
    if any (λ entry. entry.key == field) catalog then field else get_or (loop_of field) field

pub field_labels : List Text → List MarkerCatalogEntry → List Text
unfolding listed_key
field_labels fields catalog =
    let keys = set_from [] (map (listed_key catalog) fields) in
    map (λ entry. entry.label) (filter (λ entry. includes keys entry.key) catalog)

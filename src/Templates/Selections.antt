-- ===== src/Templates/Selections.antt =====
-- apps/backend/src/templates/guided-marking.ts: applySelections. All is checked before anything is
-- written. A selection's positions are natural numbers, as its DTO demands, so `start < 0` never
-- holds; unzipping, parsing and serializing the document are left to the libraries.
pub mod Written
use slomp.Prelude.{
  ℕ, ◌+◌, Bool, true, false, ◌&&◌, ◌||◌, not, Option, none, some, List, [], ◌∷◌, ◌++◌, map,
  if◌then◌else◌, ◌==◌, nat_eq, list_eq, pair_eq, Eq, ltb, leb, length, filter, find, any, all,
  includes, add, get, set, get_or, is_some, Result, ok, err, ◌>>=◌, ◌>>◌, throw_if, or_throw,
}
use slomp.Prelude.Sorting.{sort_by, sort_with}
use slomp.Prelude.Texts.{Text, joined}
use slomp.Templates.Document.{BlockId, Selection, FieldKind, is_table_row}
use slomp.Templates.Catalog.{FieldCatalog, CatalogEntry, field_kind, is_table_kind}
use slomp.Templates.Dom.{NodeId, Store, Row, Paragraph, replace_range, wrap_row}
use slomp.Templates.Markers.{existing_markers, marker_for}

abbrev pub max_selections : ℕ
max_selections = 500

pub data MarkingError : Type 0 where
  too_many : MarkingError
  field_unknown block_not_found empty out_of_range : (index : ℕ) → MarkingError
  row_field_outside_table rows_in_several_rows rows_in_several_tables : (index : ℕ) → MarkingError
  removed_block_not_found removed_row_outside_table : (block_id : BlockId) → MarkingError
  removed_row_has_marker removed_row_last : (block_id : BlockId) → MarkingError
  selections_overlap : (index other : ℕ) → MarkingError
  overlaps_marker : (index : ℕ) → MarkingError

pub record Docx : Type 0 where
  pub parts : List (List Paragraph)
  pub store : Store

abbrev pub Blocks : Type 0
Blocks = List (BlockId × Paragraph)

abbrev pub blocks_from : Blocks → List Paragraph → Blocks
blocks_from blocks [] = blocks
blocks_from blocks (p ∷ paragraphs) = blocks_from (set blocks p.block_id p) paragraphs

abbrev pub blocks_of : Docx → Blocks
blocks_of docx = blocks_from [] (filter (λ (p : Paragraph). not p.in_text_box) (joined docx.parts))

-- `tableRow`: the row that the first field of a table selected, and its table's index.
pub record TableRow : Type 0 where
  pub row : Row
  pub table : ℕ

abbrev pub check_row : ℕ → Option TableRow → Row → ℕ → Result MarkingError (Option TableRow)
check_row index none row table = ok (some (record { row = row; table = table }))
check_row index (some used) row table =
    if used.row.id == row.id
    then ok (some used)
    else if used.table == table && used.row.part == row.part
    then err (rows_in_several_rows index)
    else err (rows_in_several_tables index)

abbrev pub check_table : ℕ → Option TableRow → Paragraph → Result MarkingError (Option TableRow)
check_table index used paragraph = do
  row ← or_throw paragraph.row (row_field_outside_table index)
  cell ← or_throw paragraph.table (row_field_outside_table index)
  check_row index used row cell.table_index

-- One round of the loop that checks the selections.
pub check_selection :
    List (Text × FieldKind)
    → Blocks
    → ℕ
    → Selection
    → Option TableRow
    → Result MarkingError (Option TableRow)
check_selection kinds blocks index selection used = do
  kind ← or_throw (get kinds selection.field) (field_unknown index)
  paragraph ← or_throw (get blocks selection.block_id) (block_not_found index)
  throw_if (leb selection.end selection.start) (empty index)
  throw_if (ltb (length paragraph.text) selection.end) (out_of_range index)
  if not (is_table_row kind) then ok used else check_table index used paragraph

pub check_selections :
    List (Text × FieldKind)
    → Blocks
    → ℕ
    → List Selection
    → Option TableRow
    → Result MarkingError (Option TableRow)
unfolding check_selection
check_selections kinds blocks index [] used = ok used
check_selections kinds blocks index (selection ∷ selections) used = do
  used' ← check_selection kinds blocks index selection used
  check_selections kinds blocks (index + 1) selections used'

-- `named`: the rows to remove by their ids, with the first block that names each.
pub named_rows :
    Blocks
    → List BlockId
    → List (ℕ × (Row × BlockId))
    → Result MarkingError (List (ℕ × (Row × BlockId)))
named_rows blocks [] named = ok named
named_rows blocks (block_id ∷ removed) named = do
  paragraph ← or_throw (get blocks block_id) (removed_block_not_found block_id)
  row ← or_throw paragraph.row (removed_row_outside_table block_id)
  named_rows blocks removed
      (if is_some (get named row.id) then named else set named row.id (row, block_id))

abbrev pub is_in_row : ℕ → Option Row → Bool
is_in_row id none = false
is_in_row id (some row) = row.id == id

abbrev pub marks_row : Blocks → ℕ → Selection → Bool
marks_row blocks id mark = elim (get blocks mark.block_id) [
  | none ↦ false
  | some paragraph ↦ is_in_row id paragraph.row
]

pub check_named :
    Blocks → List Selection → List ℕ → List (ℕ × (Row × BlockId)) → Result MarkingError (Unit {0})
check_named blocks marks ids [] = ok tt
check_named blocks marks ids ((id, (row, block_id)) ∷ named) = do
  throw_if (any (marks_row blocks id) marks) (removed_row_has_marker block_id)
  throw_if (all (includes ids) row.table_rows) (removed_row_last block_id)
  check_named blocks marks ids named

pub rows_to_remove :
    Blocks → List BlockId → List Selection → Result MarkingError (List (ℕ × (Row × BlockId)))
unfolding named_rows check_named
rows_to_remove blocks removed marks = do
  named ← named_rows blocks removed []
  check_named blocks marks (map (λ n. n.0) named) named
  ok named

pub record Indexed : Type 0 where
  pub selection : Selection
  pub index : ℕ

abbrev pub Groups : Type 0
Groups = List (BlockId × List Indexed)

unfoldable pub group_from : Groups → ℕ → List Selection → Groups
group_from groups index [] = groups
group_from groups index (s ∷ selections) =
    let group = get_or (get groups s.block_id) [] in
    group_from (set groups s.block_id (group ++ record { selection = s; index = index } ∷ []))
      (index + 1) selections

abbrev pub overlaps : Selection → Selection → Bool
overlaps a b = ltb a.start b.end && ltb b.start a.end

abbrev pub start_of : Indexed → ℕ
start_of i = i.selection.start

-- The first of two neighbours in a sorted group that overlap, and the indexes that the error tells.
unfoldable pub check_neighbours : Indexed → List Indexed → Result MarkingError (Unit {0})
check_neighbours first [] = ok tt
check_neighbours first (second ∷ group) = do
  throw_if (overlaps first.selection second.selection) (selections_overlap first.index second.index)
  check_neighbours second group

abbrev pub check_sorted : List Indexed → Result MarkingError (Unit {0})
check_sorted [] = ok tt
check_sorted (first ∷ group) = check_neighbours first group

abbrev pub index_in : Option Indexed → ℕ
index_in none = 0
index_in (some i) = i.index

abbrev pub hits : List Indexed → Selection → Bool
hits group m = any (λ (i : Indexed). overlaps m i.selection) group

abbrev pub check_markers : List Selection → BlockId → List Indexed → Result MarkingError (Unit {0})
check_markers existing block_id group =
    elim (find (λ (m : Selection). m.block_id == block_id && hits group m) existing) [
      | none ↦ ok tt
      | some marker ↦
          err
            (overlaps_marker (index_in (find (λ (i : Indexed). overlaps marker i.selection) group)))
    ]

unfoldable pub check_groups : List Selection → Groups → Result MarkingError (Unit {0})
unfolding check_neighbours
check_groups existing [] = ok tt
check_groups existing ((block_id, group) ∷ groups) = do
  check_sorted (sort_by start_of group)
  check_markers existing block_id group
  check_groups existing groups

-- From the end backwards.
abbrev pub later_first : Indexed → Indexed → Bool
later_first a b = leb (start_of b) (start_of a)

-- The markers of one paragraph, in the order given.
unfoldable pub write_marks : FieldCatalog → List NodeId → List Indexed → Store → Store
write_marks catalog texts [] s = s
write_marks catalog texts (i ∷ group) s =
    let replacement = marker_for catalog i.selection.field in
    let s' =
      if length replacement == 0
      then s
      else replace_range texts i.selection.start i.selection.end replacement s in
    write_marks catalog texts group s'

abbrev pub texts_of : Option Paragraph → List NodeId
texts_of none = []
texts_of (some p) = p.texts

pub write_groups : FieldCatalog → Blocks → Groups → Store → Store
unfolding write_marks
write_groups catalog blocks [] s = s
write_groups catalog blocks ((block_id, group) ∷ groups) s =
    write_groups catalog blocks groups
      (write_marks catalog (texts_of (get blocks block_id)) (sort_with later_first group) s)

-- The loop that repeats a row of a table.
abbrev pub table_loop : FieldCatalog → Option Text
table_loop catalog =
    find (λ name. is_table_kind (field_kind catalog name))
      (map (λ (l : Text × List Text). l.0) catalog.loops)

abbrev pub wrap_used : FieldCatalog → Option TableRow → Store → Store
wrap_used catalog used s = elim used [
  | none ↦ s
  | some table_row ↦ elim (table_loop catalog) [
    | none ↦ s
    | some loop ↦ wrap_row table_row.row loop s
  ]
]

-- The marked document: its texts and the rows that are left out.
pub record Marked : Type 0 where
  pub store : Store
  pub removed : List ℕ

pub apply_selections :
    FieldCatalog
    → List (Text × FieldKind)
    → Docx
    → List Selection
    → List BlockId
    → Result MarkingError Marked
unfolding check_selections rows_to_remove group_from check_groups write_groups
apply_selections catalog kinds docx selections removed_rows = do
  throw_if (ltb max_selections (length selections) || ltb max_selections (length removed_rows))
      too_many
  let blocks = blocks_of docx
  used ← check_selections kinds blocks 0 selections none
  let existing = joined (map (existing_markers catalog) docx.parts)
  rows ← rows_to_remove blocks removed_rows (selections ++ existing)
  let groups = group_from [] 0 selections
  check_groups existing groups
  ok (record {
    store = wrap_used catalog used (write_groups catalog blocks groups docx.store);
    removed = map (λ n. n.0) rows;
  })

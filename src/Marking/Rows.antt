-- ===== src/Marking/Rows.antt =====
-- apps/frontend/src/domain/templateMarking.ts: tables of a document, their rows and which of them
-- repeats. The text `${part}:${tableIndex}:${rowIndex}` of a row's key, whose last two parts are
-- numbers, stands for the pair of its table's key and its number.
pub mod Sections
pub mod Surplus
pub mod SingleRow
use slomp.Prelude.{
  ℕ, ◌+◌, Bool, true, false, ◌&&◌, ◌||◌, not, Option, none, some, List, [], ◌∷◌, ◌++◌, map, max,
  if◌then◌else◌, ◌==◌, nat_eq, list_eq, pair_eq, Eq, leb, length, filter, find, any, all, includes,
  set_from, get, set, get_or, add,
}
use slomp.Prelude.Sorting.{sort_by}
use slomp.Prelude.Texts.{Text, slice, trim, trim_start}
use slomp.Templates.Document.{
  BlockId, Selection, DocxBlock, CellPosition, PartKind, part_eq, is_table_row,
}
use slomp.Marking.Fields.{MarkerCatalogEntry, is_table_field}
use slomp.Marking.Pieces.{MarkingProblem, outside_table, other_row}

abbrev pub TableKey : Type 0
TableKey = Text × ℕ

abbrev pub RowKey : Type 0
RowKey = TableKey × ℕ

unfoldable pub row_key : DocxBlock → Option RowKey
row_key block = elim block.table [
  | none ↦ none
  | some cell ↦ some ((block.block_id.0, cell.table_index), cell.row_index)
]

abbrev pub table_key_of : RowKey → TableKey
table_key_of row = row.0

abbrev pub is_row : RowKey → Option RowKey → Bool
is_row row none = false
is_row row (some other) = other == row

abbrev pub col_of : Option CellPosition → ℕ
col_of none = 0
col_of (some cell) = cell.col_index

abbrev pub is_filled : RowKey → DocxBlock → Bool
is_filled row block = is_row row (row_key block) && not (length (trim block.text) == 0)

-- A block whose row is known has a table, so `block.table!` is there.
pub filled_columns : List DocxBlock → RowKey → List ℕ
unfolding row_key trim
filled_columns blocks row = set_from [] (map (λ b. col_of b.table) (filter (is_filled row) blocks))

pub record TableRow : Type 0 where
  pub row : RowKey
  pub block_id : BlockId

abbrev pub block_of : List DocxBlock → Selection → Option DocxBlock
block_of blocks mark = find (λ candidate. candidate.block_id == mark.block_id) blocks

-- The row that a mark stands in, if its block is known and in a table.
pub row_of_mark : List DocxBlock → Selection → Option RowKey
unfolding row_key
row_of_mark blocks mark = elim (block_of blocks mark) [ none ↦ none | some block ↦ row_key block ]

-- `marked.has(row)`, of the rows of the marks.
pub is_marked : List DocxBlock → List Selection → RowKey → Bool
unfolding row_of_mark
is_marked blocks marks row = any (λ mark. is_row row (row_of_mark blocks mark)) marks

abbrev pub same_columns : List ℕ → List ℕ → Bool
same_columns filled example =
    length filled == length example && all (λ column. includes filled column) example

-- The tests of a row before its columns are looked at, the known rows aside.
pub is_candidate : List DocxBlock → RowKey → List Selection → RowKey → Bool
unfolding is_marked
is_candidate blocks example_row marks row =
    table_key_of row == table_key_of example_row
    && not (row == example_row)
    && not (row.1 == 0)
    && not (is_marked blocks marks row)

-- The loop of surplusRows; `rest` are the blocks that are still to come.
pub surplus_from :
    List DocxBlock → RowKey → List Selection → List TableRow → List DocxBlock → List TableRow
unfolding row_key is_candidate filled_columns
surplus_from blocks example_row marks rows [] = rows
surplus_from blocks example_row marks rows (block ∷ rest) =
    let known = λ (row : RowKey). any (λ (r : TableRow). r.row == row) rows in
    let rows' : List TableRow = elim (row_key block) [
      | none ↦ rows
      | some row ↦
          if not (is_candidate blocks example_row marks row) || known row
          then rows
          else if same_columns (filled_columns blocks row) (filled_columns blocks example_row)
          then rows ++ record { row = row; block_id = block.block_id } ∷ []
          else rows
    ] in
    surplus_from blocks example_row marks rows' rest

unfoldable pub surplus_rows : List DocxBlock → RowKey → List Selection → List TableRow
unfolding surplus_from
surplus_rows blocks example_row marks = surplus_from blocks example_row marks [] blocks

abbrev pub table_keys : List MarkerCatalogEntry → List Text
table_keys catalog =
    map (λ (entry : MarkerCatalogEntry). entry.key)
      (filter (λ (entry : MarkerCatalogEntry). is_table_row entry.kind) catalog)

unfoldable pub table_row_in_use : List DocxBlock → List Text → List Selection → Option RowKey
unfolding row_of_mark
table_row_in_use blocks keys [] = none
table_row_in_use blocks keys (mark ∷ marks) =
    let rest = table_row_in_use blocks keys marks in
    if not (includes keys mark.field)
    then rest
    else elim (row_of_mark blocks mark) [ none ↦ rest | some key ↦ some key ]

unfoldable pub entry_problem :
    MarkerCatalogEntry → DocxBlock → Option RowKey → Option MarkingProblem
unfolding row_key
entry_problem entry block row_in_use =
    if not (is_table_field entry) then none else elim (row_key block) [
      | none ↦ some outside_table
      | some row ↦ elim row_in_use [
        | none ↦ none
        | some used ↦ if not (used == row) then some other_row else none
      ]
    ]

pub data DocumentItem : Type 0 where
  paragraph : (block : DocxBlock) → DocumentItem
  table : (key : TableKey) (blocks : List DocxBlock) → DocumentItem

pub record DocumentSection : Type 0 where
  pub part : PartKind
  pub items : List DocumentItem

abbrev pub table_key : DocxBlock → Option TableKey
table_key block = elim block.table [
  | none ↦ none
  | some cell ↦ some (block.block_id.0, cell.table_index)
]

-- The item of a block that does not go on with the last table.
abbrev pub new_item : DocxBlock → Option TableKey → DocumentItem
new_item block none = paragraph block
new_item block (some key) = table key (block ∷ [])

abbrev pub is_key : TableKey → Option TableKey → Bool
is_key key none = false
is_key key (some other) = key == other

-- `section.items`, with the block gathered in its last item or pushed.
pub add_item : DocxBlock → List DocumentItem → List DocumentItem
add_item block [] = new_item block (table_key block) ∷ []
add_item block (table key blocks ∷ []) =
    if is_key key (table_key block)
    then table key (blocks ++ block ∷ []) ∷ []
    else table key blocks ∷ new_item block (table_key block) ∷ []
add_item block (paragraph b ∷ []) = paragraph b ∷ new_item block (table_key block) ∷ []
add_item block (i ∷ j ∷ items) = i ∷ add_item block (j ∷ items)

-- `sections`, with the block in its last section or in a new one.
pub add_block : DocxBlock → List DocumentSection → List DocumentSection
unfolding add_item
add_block block [] = record { part = block.part; items = add_item block [] } ∷ []
add_block block (s ∷ []) =
    if s.part == block.part
    then record s { items = add_item block s.items } ∷ []
    else s ∷ record { part = block.part; items = add_item block [] } ∷ []
add_block block (s ∷ t ∷ sections) = s ∷ add_block block (t ∷ sections)

pub sections_from : List DocumentSection → List DocxBlock → List DocumentSection
unfolding add_block
sections_from sections [] = sections
sections_from sections (block ∷ blocks) = sections_from (add_block block sections) blocks

unfoldable pub sections_of : List DocxBlock → List DocumentSection
unfolding sections_from
sections_of blocks = sections_from [] blocks

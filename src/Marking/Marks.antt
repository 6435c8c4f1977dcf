-- ===== src/Marking/Marks.antt =====
-- apps/frontend/src/domain/templateMarking.ts: lists of marks, merged and sorted, the grid of a table
-- and the rows of a saved version that repeat.
pub mod Merged
use slomp.Prelude.{
  ℕ, ◌+◌, Bool, true, false, ◌&&◌, ◌||◌, not, Option, none, some, List, [], ◌∷◌, ◌++◌, map, max,
  if◌then◌else◌, ◌==◌, nat_eq, list_eq, pair_eq, Eq, ltb, leb, length, get, set, get_or, add,
}
use slomp.Prelude.Sorting.{sort_by, sort_with}
use slomp.Prelude.Texts.{Text, slice, trim_start}
use slomp.Templates.Document.{BlockId, Selection, DocxBlock, CellPosition}
use slomp.Marking.Rows.{RowKey, block_of, row_of_mark}

-- The loop of mergeAdjacent, whose last merged mark is `last`.
pub merge_from : Selection → List Selection → List Selection
merge_from last [] = last ∷ []
merge_from last (mark ∷ marks) =
    let longer = merge_from (record last { end = mark.end }) marks in
    let apart = merge_from mark marks in
    if last.block_id == mark.block_id && last.field == mark.field && last.end == mark.start
    then longer
    else last ∷ apart

pub merge : List Selection → List Selection
unfolding merge_from
merge [] = []
merge (mark ∷ marks) = merge_from mark marks

module _ (before : BlockId → BlockId → Bool) where
  -- `a.blockId.localeCompare(b.blockId) || a.start - b.start` is not positive. The order of
  -- localeCompare is the parameter `before`.
  abbrev pub in_reading_order : Selection → Selection → Bool
  in_reading_order a b =
      before a.block_id b.block_id || (not (before b.block_id a.block_id) && leb a.start b.start)

  unfoldable pub merge_adjacent : List Selection → List Selection
  unfolding merge
  merge_adjacent marks = merge (sort_with in_reading_order marks)

-- The last block with an id gives its place.
pub order_from : List (BlockId × ℕ) → ℕ → List DocxBlock → List (BlockId × ℕ)
order_from order index [] = order
order_from order index (block ∷ blocks) =
    order_from (set order block.block_id index) (index + 1) blocks

abbrev pub in_document_order : List (BlockId × ℕ) → Selection → Selection → Bool
in_document_order order a b =
    let place = λ (s : Selection). get_or (get order s.block_id) 0 in
    ltb (place a) (place b) || (place a == place b && leb a.start b.start)

pub sort_selections : List DocxBlock → List Selection → List Selection
unfolding order_from
sort_selections blocks selections =
    sort_with (in_document_order (order_from [] 0 blocks)) selections

pub record TableGrid : Type 0 where
  pub columns : ℕ
  pub rows : List (ℕ × List (ℕ × List DocxBlock))

-- The loop of tableGrid, over the cells of the blocks.
pub grid_from : TableGrid → List (CellPosition × DocxBlock) → TableGrid
grid_from grid [] = grid
grid_from grid ((cell, block) ∷ blocks) =
    let row = get_or (get grid.rows cell.row_index) [] in
    let row' = set row cell.col_index (get_or (get row cell.col_index) [] ++ block ∷ []) in
    grid_from
      (record {
        columns = max grid.columns (cell.col_index + 1);
        rows = set grid.rows cell.row_index row';
      })
      blocks

pub table_grid : List (CellPosition × DocxBlock) → TableGrid
unfolding grid_from
table_grid blocks =
    let grid = grid_from (record { columns = 0; rows = [] }) blocks in
    record grid { rows = sort_by (λ r. r.0) grid.rows }

-- `[^{}]*\}$`
pub closes_tag : Text → Bool
closes_tag [] = false
closes_tag (c ∷ []) = c == b'}'
closes_tag (c ∷ d ∷ rest) = not (c == b'{') && not (c == b'}') && closes_tag (d ∷ rest)

pub opens_loop : Text → Bool
unfolding closes_tag
opens_loop [] = false
opens_loop (c ∷ rest) = (c == b'#' || c == b'/') && closes_tag rest

unfoldable pub is_row_boundary : Text → Bool
unfolding opens_loop trim_start
is_row_boundary [] = false
is_row_boundary (c ∷ rest) = c == b'{' && opens_loop (trim_start rest)

abbrev pub is_boundary_of : Option DocxBlock → Selection → Bool
is_boundary_of none mark = false
is_boundary_of (some block) mark = is_row_boundary (slice mark.start mark.end block.text)

-- The loop of repeatingRows.
pub repeating_from : List RowKey → List DocxBlock → List Selection → List RowKey
unfolding is_row_boundary
repeating_from rows blocks [] = rows
repeating_from rows blocks (mark ∷ marks) =
    let rows' : List RowKey = elim (row_of_mark blocks mark) [
      | none ↦ rows
      | some row ↦ if is_boundary_of (block_of blocks mark) mark then add rows row else rows
    ] in
    repeating_from rows' blocks marks

pub repeating_rows : List DocxBlock → List Selection → List RowKey
unfolding repeating_from
repeating_rows blocks marks = repeating_from [] blocks marks

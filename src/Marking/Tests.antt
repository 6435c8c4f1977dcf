-- ===== src/Marking/Tests.antt =====
-- The rules of the marking at concrete inputs: a paragraph in two fragments with two marks, and a table
-- with its titles, an example row and a row like it.
use slomp.Prelude.{
  ℕ, ◌≡◌, ◌↔◌, refl, true, false, none, some, List, [], ◌∷◌, ◌++◌, map, arith, codes, All, Any, ok,
}
use slomp.Prelude.Texts.{Text}
use slomp.Templates.Document.{Selection, Fragment, DocxBlock, body, BlockId, table_row}
use slomp.Marking.Fields.{MarkerCatalogEntry}
use slomp.Marking.Pieces.{SourcedMark, lawyer, file, block_pieces, range_problem, trim_range}
use slomp.Marking.Pieces.Covered.{pieces_text, block_pieces-text}
use slomp.Templates.Selections.{check_groups, group_from}
use slomp.Marking.Accepted.{placed_accepted}
use slomp.Marking.Rows.{
  RowKey, TableRow, surplus_rows, sections_of, table_row_in_use, entry_problem, row_key,
}
use slomp.Marking.Rows.Sections.{sections_blocks, IsSection, sections_of_blocks}
use slomp.Marking.Rows.Surplus.{IsSurplus, surplus_rows_iff}
use slomp.Marking.Rows.SingleRow.{IsInRow, entry_problem-IsInRow}
use slomp.Marking.Marks.{merge_adjacent, is_row_boundary}
use slomp.Marking.Marks.Merged.{Holds, merge_adjacent_iff}

abbrev fragment : Text → Fragment
fragment text = record { text = text; bold = false; italic = false }

abbrev body_id : ℕ → BlockId
body_id n = (codes "body", n)

abbrev debt : DocxBlock
debt = record {
  block_id = body_id 0;
  part = body;
  text = codes "Debe $10 hoy";
  table = none;
  fragments = fragment (codes "Debe $") ∷ fragment (codes "10 hoy") ∷ [];
}

abbrev amount : Selection
amount = record { block_id = body_id 0; start = 5; end = 8; field = codes "totalAmount" }

abbrev day : Selection
day = record { block_id = body_id 0; start = 9; end = 12; field = codes "issueDate" }

abbrev marks : List SourcedMark
marks = record { mark = day; source = lawyer } ∷ record { mark = amount; source = file } ∷ []

block_pieces-text_example : pieces_text (block_pieces debt marks) ≡ codes "Debe $10 hoy"
block_pieces-text_example =
    block_pieces-text debt marks refl ((λ h. omega arith), ((λ h. omega arith), tt))
      ((refl, tt), (tt, tt))

placed_accepted_example : check_groups (day ∷ []) (group_from [] 0 (amount ∷ [])) ≡ ok tt
unfolding range_problem
placed_accepted_example = placed_accepted (day ∷ []) (amount ∷ []) (tt, tt) (refl, tt)

trimmed : trim_range (codes "a  b c ") 1 7 ≡ some (3, 6)
unfolding trim_range
trimmed = refl

abbrev cell : ℕ → ℕ → ℕ → Text → DocxBlock
cell n row col text = record {
  block_id = body_id n;
  part = body;
  text = text;
  table = some (record { table_index = 0; row_index = row; col_index = col });
  fragments = fragment text ∷ [];
}

abbrev years : List DocxBlock
years = debt ∷ cell 1 0 0 (codes "Año") ∷ cell 2 1 0 (codes "2024") ∷ cell 3 2 0 (codes "2025") ∷ []

abbrev row_at : ℕ → RowKey
row_at n = ((codes "body", 0), n)

abbrev year : Selection
year = record { block_id = body_id 2; start = 0; end = 4; field = codes "rows.year" }

sections_of_blocks_example :
    (sections_blocks (sections_of years) ≡ years) × All IsSection (sections_of years)
sections_of_blocks_example = sections_of_blocks years

surplus_rows_iff_example :
    Any (λ (r : TableRow). r.row ≡ row_at 2) (surplus_rows years (row_at 1) (year ∷ []))
    ↔ IsSurplus years (row_at 1) (year ∷ []) (row_at 2)
surplus_rows_iff_example = surplus_rows_iff years (row_at 1) (year ∷ []) (row_at 2)

one_surplus :
    map (λ (r : TableRow). r.row) (surplus_rows years (row_at 1) (year ∷ [])) ≡ row_at 2 ∷ []
unfolding surplus_rows
one_surplus = refl

abbrev year_entry : MarkerCatalogEntry
year_entry = record {
  key = codes "rows.year";
  label = codes "Vigencia (año)";
  description = [];
  required = true;
  kind = table_row;
}

entry_problem-IsInRow_example :
    (row : RowKey) × All (IsInRow years (codes "rows.year" ∷ []) row) (
      (year ∷ [])
      ++ record { block_id = body_id 2; start = 0; end = 2; field = codes "rows.year" } ∷ [])
unfolding entry_problem table_row_in_use row_key
entry_problem-IsInRow_example =
    entry_problem-IsInRow years (codes "rows.year" ∷ []) (row_at 1) (year ∷ []) year_entry
      (cell 2 1 0 (codes "2024")) 0 2 ((λ h. refl), tt) refl refl refl

-- {#list}{number}{/list}, the three tags of an inline list.
abbrev list_tags : List Selection
list_tags =
    record { block_id = body_id 0; start = 7; end = 15; field = codes "list" }
    ∷ record { block_id = body_id 0; start = 0; end = 7; field = codes "list" }
    ∷ record { block_id = body_id 0; start = 15; end = 22; field = codes "list" }
    ∷ []

merge_adjacent_iff_example :
    Any (Holds (body_id 0) (codes "list") 16) (merge_adjacent (λ a b. false) list_tags)
    ↔ Any (Holds (body_id 0) (codes "list") 16) list_tags
merge_adjacent_iff_example =
    merge_adjacent_iff (body_id 0) (codes "list") 16 (λ a b. false) list_tags
      (omega arith, (omega arith, (omega arith, tt)))

one_merged :
    merge_adjacent (λ a b. false) list_tags
    ≡ record { block_id = body_id 0; start = 0; end = 22; field = codes "list" } ∷ []
unfolding merge_adjacent
one_merged = refl

row_boundaries :
    map is_row_boundary (codes "{ #rows}" ∷ codes "{/rows}" ∷ codes "{year}" ∷ codes "{#a}{b}" ∷ [])
    ≡ true ∷ true ∷ false ∷ false ∷ []
unfolding is_row_boundary
row_boundaries = refl

-- ===== src/Marking/Rows/SingleRow.antt =====
-- The table fields of a template stay in one row of a table.
use slomp.Prelude.{
  ℕ, ◌≡◌, refl, sym, ap, ◌∙◌, ◌⊎◌, inl, inr, true, false, none, some, List, [], ◌∷◌, ◌++◌, ◌==◌,
  nat_eq, list_eq, pair_eq, arith, Bool-cases, Option-cases, All, All-append, All-mono, find,
  includes, pair_beq_iff,
}
use slomp.Prelude.Texts.{Text}
use slomp.Templates.Document.{DocxBlock, Selection}
use slomp.Marking.Fields.{MarkerCatalogEntry, is_table_field}
use slomp.Marking.Rows.{RowKey, row_key, row_of_mark, table_row_in_use, entry_problem}

-- A mark of a table field stands in the row.
abbrev pub IsInRow : List DocxBlock → List Text → RowKey → Selection → Type 0
IsInRow blocks keys row mark = includes keys mark.field ≡ true → row_of_mark blocks mark ≡ some row

module _ (blocks : List DocxBlock) (keys : List Text) where
  -- The row in use is the one that the marks share, and without one no table field is marked.
  row_in_use :
      (row : RowKey) (marks : List Selection)
      → All (IsInRow blocks keys row) marks
      → (table_row_in_use blocks keys marks ≡ some row)
        ⊎ ((table_row_in_use blocks keys marks ≡ none)
            × All (λ m. includes keys m.field ≡ false) marks)
  unfolding table_row_in_use
  row_in_use row [] h = inr (refl, tt)
  row_in_use row (m ∷ marks) (h, hs) = elim (Bool-cases (includes keys m.field)) [
    | inl field ↦ inl (rw (field, h field) refl)
    | inr other ↦ elim (row_in_use row marks hs) [
      | inl used ↦ inl (rw other used)
      | inr (unused, free) ↦ inr (rw other unused, (other, free))
    ]
  ]

  -- Marking a block with a catalog entry that entryProblem lets through keeps every table field in one
  -- row, where the entry is a field of a table exactly when its key is one of the table's, and the id
  -- of the block names that block.
  pub entry_problem-IsInRow :
      (row : RowKey) (marks : List Selection) (entry : MarkerCatalogEntry) (block : DocxBlock)
      (start end : ℕ)
      → All (IsInRow blocks keys row) marks
      → includes keys entry.key ≡ is_table_field entry
      → find (λ b. b.block_id == block.block_id) blocks ≡ some block
      → entry_problem entry block (table_row_in_use blocks keys marks) ≡ none
      → (row' : RowKey) × All (IsInRow blocks keys row') (
          marks
          ++ record { block_id = block.block_id; start = start; end = end; field = entry.key } ∷ [])
  unfolding entry_problem row_of_mark
  entry_problem-IsInRow row marks entry block start end h key found fine =
      let mark : Selection = record {
        block_id = block.block_id;
        start = start;
        end = end;
        field = entry.key;
      } in
      elim (Bool-cases (is_table_field entry)) [
        | inr other ↦ (
          row,
          All-append (IsInRow blocks keys row) marks (mark ∷ []) h
              (λ f. absurd (ground (arith, f, key, other)), tt),
        )
        | inl field ↦ elim (Option-cases (row_key block)) [
          | inl outside ↦ absurd (ground (arith, rw (field, outside) at fine))
          | inr (here, at_row) ↦
              let placed : row_of_mark blocks mark ≡ some here = rw (found, row_of_mark) at_row in
              elim (row_in_use row marks h) [
                | inl used ↦
                    let same : row ≡ here = elim (Bool-cases (row == here)) [
                      | inl e ↦ (pair_beq_iff row here).0 e
                      | inr n ↦ absurd (ground (arith, rw (field, at_row, used, n) at fine))
                    ] in
                    (
                      row,
                      All-append (IsInRow blocks keys row) marks (mark ∷ []) h
                          (λ f. placed ∙ ap some (sym same), tt),
                    )
                | inr (unused, free) ↦ (
                  here,
                  All-append (IsInRow blocks keys here) marks (mark ∷ [])
                      (All-mono (λ m. includes keys m.field ≡ false) (IsInRow blocks keys here)
                        marks (λ m n f. absurd (ground (arith, n, f))) free)
                      (λ f. placed, tt),
                )
              ]
        ]
      ]

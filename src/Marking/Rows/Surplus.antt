-- ===== src/Marking/Rows/Surplus.antt =====
-- Which rows are offered for removal.
use slomp.Prelude.{
  ℕ, ◌≡◌, ◌≢◌, refl, ap, ◌↔◌, ◌⊎◌, inl, inr, Bool, true, false, ◌&&◌, ◌||◌, not, Option, none, some,
  List, [], ◌∷◌, ◌++◌, if◌then◌else◌, ◌==◌, nat_eq, list_eq, pair_eq, arith, Bool-cases,
  Option-cases, All, Any, any, any_iff, all_iff, pair_beq_iff, length, includes, Any-append_iff,
  subst,
}
use slomp.Templates.Document.{DocxBlock, Selection}
use slomp.Marking.Rows.{
  RowKey, TableRow, row_key, row_of_mark, is_row, is_marked, is_candidate, same_columns,
  filled_columns, surplus_from, surplus_rows,
}

abbrev pub HasRow : RowKey → DocxBlock → Type 0
HasRow row block = row_key block ≡ some row

is_row_iff : (row : RowKey) (o : Option RowKey) → (is_row row o ≡ true) ↔ (o ≡ some row)
is_row_iff row none = (λ h. absurd (ground arith), λ h. absurd (ground arith))
is_row_iff row (some other) =
    (λ h. ap some ((pair_beq_iff other row).0 h), λ h. (pair_beq_iff other row).1 (ground arith))

some-injective : {a b : RowKey} → some a ≡ some b → a ≡ b
some-injective e = cc

module _ (blocks : List DocxBlock) (example_row : RowKey) (marks : List Selection) where
  -- A row of the document that stands in the example row's table, is neither that row nor the first
  -- one of the table, holds no mark, and has the same columns filled in.
  pub record IsSurplus (row : RowKey) : Type 0 where
    pub present : Any (HasRow row) blocks
    pub in_table : row.0 ≡ example_row.0
    pub not_example : row ≢ example_row
    pub not_first : row.1 ≢ 0
    pub unmarked : Any (λ mark. row_of_mark blocks mark ≡ some row) marks → ⊥
    pub as_many : length (filled_columns blocks row) ≡ length (filled_columns blocks example_row)
    pub filled :
        All (λ c. includes (filled_columns blocks row) c ≡ true) (filled_columns blocks example_row)

  abbrev passes : RowKey → Bool
  passes row =
      is_candidate blocks example_row marks row
      && same_columns (filled_columns blocks row) (filled_columns blocks example_row)

  abbrev Names : RowKey → TableRow → Type 0
  Names row r = r.row ≡ row

  fails : (row other : RowKey) → row ≡ other → passes row ≡ false → passes other ≡ true → ⊥
  fails row other e no_row p = ground (arith, ap passes e)

  -- The rows after one block.
  abbrev rows_after : List TableRow → DocxBlock → RowKey → List TableRow
  rows_after rows block row =
      if not (is_candidate blocks example_row marks row)
        || any (λ (r : TableRow). r.row == row) rows
      then rows
      else if same_columns (filled_columns blocks row) (filled_columns blocks example_row)
      then rows ++ record { row = row; block_id = block.block_id } ∷ []
      else rows

  rows_after_iff :
      (rows : List TableRow) (block : DocxBlock) (row other : RowKey)
      → Any (Names other) (rows_after rows block row)
        ↔ (Any (Names other) rows ⊎ ((row ≡ other) × (passes other ≡ true)))
  rows_after_iff rows block row other =
      let kept : (passes row ≡ false)
          → Any (Names other) rows
            ↔ (Any (Names other) rows ⊎ ((row ≡ other) × (passes other ≡ true))) =
        λ no_row. (
          λ h. inl h,
          λ h. elim h [ inl q ↦ q | inr (e, p) ↦ absurd (fails row other e no_row p) ],
        ) in
      elim (Bool-cases (is_candidate blocks example_row marks row)) [
        | inr outside ↦ rw outside (kept (ground (arith, outside)))
        | inl candidate ↦ elim (Bool-cases (any (λ (r : TableRow). r.row == row) rows)) [
          | inl known ↦
              rw (candidate, known)
                (
                  λ h. inl h,
                  λ h. elim h [
                    | inl q ↦ q
                    | inr (e, p) ↦
                        subst (λ z. Any (Names z) rows) e
                          ((any_iff (λ (r : TableRow). r.row == row) (Names row) rows
                              (λ r. pair_beq_iff r.row row)).0
                            known)
                  ],
                )
          | inr new ↦
              elim (Bool-cases
                (same_columns (filled_columns blocks row) (filled_columns blocks example_row))) [
                  | inr unlike ↦
                      rw (candidate, new, unlike) (kept (ground (arith, candidate, unlike)))
                  | inl like ↦
                      let both =
                        Any-append_iff (Names other) rows
                          (record { row = row; block_id = block.block_id } ∷ []) in
                      rw (candidate, new, like)
                        (
                          λ h. elim (both.0 h) [
                            | inl q ↦ inl q
                            | inr (inl e) ↦ inr (
                              e,
                              subst (λ z. passes z ≡ true) e (ground (arith, candidate, like)),
                            )
                            | inr (inr n) ↦ absurd n.1
                          ],
                          λ h. both.1 (elim h [ inl q ↦ inl q | inr (e, p) ↦ inr (inl e) ]),
                        )
                ]
        ]
      ]

  surplus_from_iff :
      (rows : List TableRow) (rest : List DocxBlock) (other : RowKey)
      → Any (Names other) (surplus_from blocks example_row marks rows rest)
        ↔ (Any (Names other) rows ⊎ (Any (HasRow other) rest × (passes other ≡ true)))
  unfolding surplus_from
  surplus_from_iff rows [] other = (λ h. inl h, λ h. elim h [ inl q ↦ q | inr (n, p) ↦ absurd n.1 ])
  surplus_from_iff rows (block ∷ rest) other = elim (Option-cases (row_key block)) [
    | inl outside ↦
        let later = surplus_from_iff rows rest other in
        rw outside (
          λ h. elim (later.0 h) [ inl q ↦ inl q | inr (m, p) ↦ inr (inr m, p) ],
          λ h. later.1 (elim h [
            | inl q ↦ inl q
            | inr (inl e, p) ↦ absurd (ground (arith, e))
            | inr (inr m, p) ↦ inr (m, p)
          ]),
        )
    | inr (row, found) ↦
        let here = rows_after_iff rows block row other in
        let later = surplus_from_iff (rows_after rows block row) rest other in
        rw found (
          λ h. elim (later.0 h) [
            | inl q ↦ elim (here.0 q) [ inl a ↦ inl a | inr (e, p) ↦ inr (inl (ap some e), p) ]
            | inr (m, p) ↦ inr (inr m, p)
          ],
          λ h. later.1 (elim h [
            | inl q ↦ inl (here.1 (inl q))
            | inr (inl e, p) ↦ inl (here.1 (inr (some-injective e, p)))
            | inr (inr m, p) ↦ inr (m, p)
          ]),
        )
  ]

  is_marked_iff :
      (row : RowKey)
      → (is_marked blocks marks row ≡ true) ↔ Any (λ mark. row_of_mark blocks mark ≡ some row) marks
  unfolding is_marked
  is_marked_iff row =
      any_iff (λ mark. is_row row (row_of_mark blocks mark))
        (λ mark. row_of_mark blocks mark ≡ some row) marks
        (λ mark. is_row_iff row (row_of_mark blocks mark))

  same_columns_iff :
      (xs ys : List ℕ)
      → (same_columns xs ys ≡ true) ↔ ((length xs ≡ length ys) × All (λ c. includes xs c ≡ true) ys)
  same_columns_iff xs ys =
      let every = all_iff (includes xs) (λ c. includes xs c ≡ true) ys (λ c. (λ h. h, λ h. h)) in
      (
        λ h. (ground arith, every.0 (ground arith)),
        λ h. let covered = every.1 h.1 in ground (arith, h.0),
      )

  passes_iff : (row : RowKey) → (Any (HasRow row) blocks × (passes row ≡ true)) ↔ IsSurplus row
  unfolding is_candidate
  passes_iff row =
      let cols = same_columns_iff (filled_columns blocks row) (filled_columns blocks example_row) in
      (
        λ (here, p). record {
          present = here;
          in_table = (pair_beq_iff row.0 example_row.0).0 (ground (arith, p));
          not_example = λ e. ground (arith, p, (pair_beq_iff row example_row).1 e);
          not_first = ground (arith, p);
          unmarked = λ m. ground (arith, p, (is_marked_iff row).1 m);
          as_many = (cols.0 (ground (arith, p))).0;
          filled = (cols.0 (ground (arith, p))).1;
        },
        λ s. (
          s.present,
          let table_e = (pair_beq_iff row.0 example_row.0).1 s.in_table in
              let like = cols.1 (s.as_many, s.filled) in
              let other : (row == example_row) ≡ false = elim (Bool-cases (row == example_row)) [
                | inl e ↦ absurd (s.not_example ((pair_beq_iff row example_row).0 e))
                | inr n ↦ n
              ] in
              let clear : is_marked blocks marks row ≡ false =
                elim (Bool-cases (is_marked blocks marks row)) [
                  | inl e ↦ absurd (s.unmarked ((is_marked_iff row).0 e))
                  | inr n ↦ n
                ] in
              let apart : (row.1 == example_row.1) ≡ false = ground (arith, other, table_e) in
              let later : (row.1 == 0) ≡ false = ground (arith, s.not_first) in
              rw (table_e, apart, later, clear, like) refl,
        ),
      )

  -- The rows that are offered for removal are exactly the surplus rows of the example row.
  pub surplus_rows_iff :
      (row : RowKey)
      → Any (λ (r : TableRow). r.row ≡ row) (surplus_rows blocks example_row marks) ↔ IsSurplus row
  unfolding surplus_rows
  surplus_rows_iff row =
      let loop = surplus_from_iff [] blocks row in
      (
        λ h. elim (loop.0 h) [ inl n ↦ absurd n.1 | inr q ↦ (passes_iff row).0 q ],
        λ s. loop.1 (inr ((passes_iff row).1 s)),
      )

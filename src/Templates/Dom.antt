-- ===== src/Templates/Dom.antt =====
-- apps/backend/src/templates/guided-marking.ts: writing markers into the text nodes of a document.
-- The nodes are shared by a paragraph, its cell and its row, so their texts are a store that maps
-- each node to its text; a paragraph, a cell and a row hold the numbers of their nodes.
pub mod Replaced
pub mod Substituted
use slomp.Prelude.{
  ℕ, ◌+◌, ◌-◌, Bool, true, false, ◌&&◌, ◌||◌, not, Option, none, some, List, [], ◌∷◌, ◌++◌, map,
  min, if◌then◌else◌, ◌==◌, nat_eq, list_eq, pair_eq, Eq, leb, length, drop, any,
}
use slomp.Prelude.Texts.{Text, slice, joined, starts_with}
use slomp.Templates.Document.{BlockId, CellPosition, PartKind}

abbrev pub NodeId : Type 0
NodeId = ℕ

-- `t.textContent` of every text node, and the next number of a node that is created.
pub record Store : Type 0 where
  pub texts : NodeId → Text
  pub next : NodeId

abbrev pub text_of : Store → List NodeId → Text
text_of s nodes = joined (map s.texts nodes)

abbrev pub set_text : NodeId → Text → Store → Store
set_text t text s = record s { texts = λ u. if t == u then text else s.texts u }

pub record Row : Type 0 where
  pub id : ℕ
  -- The part of the document that owns it.
  pub part : ℕ
  -- The rows of its table, itself included.
  pub table_rows : List ℕ
  pub texts : List NodeId
  -- The text nodes of each cell.
  pub cells : List (List NodeId)

pub record Paragraph : Type 0 where
  pub block_id : BlockId
  pub part : PartKind
  pub doc : ℕ
  pub texts : List NodeId
  pub text : Text
  pub in_text_box : Bool
  pub row : Option Row
  pub table : Option CellPosition

-- One node of the loop of replaceRange, which starts at `from`: whether it holds a part of the range.
abbrev pub is_touched : ℕ → ℕ → ℕ → ℕ → Bool
is_touched from size start end = not (leb (from + size) start || leb end from)

abbrev pub rewritten : ℕ → ℕ → ℕ → Text → Bool → Text → Text
rewritten from start end value written replacement =
    let cut = start - from in
    let keep = min (end - from) (length value) in
    slice 0 cut value ++ ((if written then [] else replacement) ++ drop keep value)

pub replace_from : ℕ → Bool → List NodeId → ℕ → ℕ → Text → Store → Store
replace_from offset written [] start end replacement s = s
replace_from offset written (t ∷ texts) start end replacement s =
    let value = s.texts t in
    let touched = is_touched offset (length value) start end in
    let s' =
      if touched then set_text t (rewritten offset start end value written replacement) s else s in
    replace_from (offset + length value) (written || touched) texts start end replacement s'

unfoldable pub replace_range : List NodeId → ℕ → ℕ → Text → Store → Store
unfolding replace_from
replace_range texts start end replacement s = replace_from 0 false texts start end replacement s

-- `text.includes(part)`
pub includes_text : Text → Text → Bool
includes_text [] part = starts_with [] part
includes_text (c ∷ text) part = starts_with (c ∷ text) part || includes_text text part

abbrev pub open_tag : Text → Text
open_tag loop = b'{' ∷ b'#' ∷ loop ++ b'}' ∷ []

abbrev pub close_tag : Text → Text
close_tag loop = b'{' ∷ b'/' ∷ loop ++ b'}' ∷ []

abbrev pub first_of : List NodeId → NodeId → NodeId
first_of [] created = created
first_of (t ∷ ts) created = t

abbrev pub last_of : List NodeId → NodeId → NodeId
last_of [] created = created
last_of (t ∷ ts) created = last_of ts t

abbrev pub last_cell : List NodeId → List (List NodeId) → List NodeId
last_cell cell [] = cell
last_cell cell (c ∷ cells) = last_cell c cells

-- A cell with no text gets an empty node; the numbers of nodes start below `next`.
abbrev pub with_text : List NodeId → Store → Store
with_text [] s = record s { texts = λ u. if s.next == u then [] else s.texts u; next = s.next + 1 }
with_text (t ∷ ts) s = s

-- The marks of a row whose first cell is `cell`: textIn is called once for each end, and the second
-- call finds what the first one created where the row has one cell.
pub wrap_cells : List NodeId → List (List NodeId) → Text → Store → Store
wrap_cells cell cells loop s =
    let s1 = with_text cell s in
    let first = first_of cell s.next in
    let s2 = set_text first (open_tag loop ++ s1.texts first) s1 in
    let end_cell : List NodeId = elim cells [
      | [] ↦ if leb 1 (length cell) then cell else first ∷ []
      | c ∷ more ↦ last_cell c more
    ] in
    let s3 = with_text end_cell s2 in
    let last = last_of end_cell s2.next in set_text last (s3.texts last ++ close_tag loop) s3

-- A row of a table has a cell.
unfoldable pub wrap_row : Row → Text → Store → Store
unfolding includes_text wrap_cells
wrap_row row loop s =
    if any (λ t. includes_text (s.texts t) (open_tag loop)) row.texts
    then s
    else elim row.cells [ [] ↦ s | cell ∷ cells ↦ wrap_cells cell cells loop s ]

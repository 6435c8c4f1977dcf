-- ===== src/Templates/Document.antt =====
-- apps/backend/src/templates/guided-marking.ts: the content of a .docx as the marking sees it. The
-- frontend's apps/frontend/src/api/templates.ts mirrors these types. A block id `body:p3` stands
-- for the pair of its part's name and its number.
use slomp.Prelude.{
  ℕ, ◌≡◌, Bool, true, false, Option, List, ◌↔◌, arith, Eq, nat_eq, list_eq, pair_eq,
}
use slomp.Prelude.Texts.{Text}

abbrev pub BlockId : Type 0
BlockId = Text × ℕ

pub record Selection : Type 0 where
  pub block_id : BlockId
  pub start : ℕ
  pub end : ℕ
  pub field : Text

pub record Fragment : Type 0 where
  pub text : Text
  pub bold : Bool
  pub italic : Bool

pub record CellPosition : Type 0 where
  pub table_index : ℕ
  pub row_index : ℕ
  pub col_index : ℕ

pub data PartKind : Type 0 where
  header body footer : PartKind

abbrev pub part_beq : PartKind → PartKind → Bool
part_beq header header = true
part_beq body body = true
part_beq footer footer = true
part_beq _ _ = false

pub part_beq_iff : (a b : PartKind) → (part_beq a b ≡ true) ↔ (a ≡ b)
part_beq_iff header b = ground arith
part_beq_iff body b = ground arith
part_beq_iff footer b = ground arith

instance abbrev pub part_eq : Eq PartKind
part_eq = record { equals = part_beq; equals_iff = part_beq_iff }

pub record DocxBlock : Type 0 where
  pub block_id : BlockId
  pub part : PartKind
  pub text : Text
  pub table : Option CellPosition
  pub fragments : List Fragment

-- The kinds of fields of apps/backend/src/templates/validate-template-fields.ts.
pub data FieldKind : Type 0 where
  scalar table_row inline_list : FieldKind

abbrev pub is_table_row : FieldKind → Bool
is_table_row table_row = true
is_table_row _ = false

abbrev pub is_inline_list : FieldKind → Bool
is_inline_list inline_list = true
is_inline_list _ = false

-- ===== src/Settlements/Rows.antt =====
-- The rows that the services of settlements read and write: a settlement with its property, its
-- resolution and its payment order joined, and the audit events. The columns are those that
-- apps/backend/src/settlements and apps/backend/src/assistant select (packages/shared/prisma).
use slomp.Prelude.{
  ℕ, Bool, false, ◌&&◌, Option, none, some, List, ◌==◌, nat_eq, is_none, pos, leb_ℤ, length, filter,
  String,
}
use slomp.Database.{update_where}
use slomp.Settlements.Status.{
  SettlementStatus, vigente, en_firme, status_eq, StatusContext, en_firme_cutoff,
}

-- A resolution or a payment order: its number and when it was issued.
pub record Document : Type 0 where
  pub id : ℕ
  pub number : String
  pub issued_at : ℕ

pub record SettlementRow : Type 0 where
  pub id : ℕ
  pub municipality_id : ℕ
  pub property_id : ℕ
  pub cadastral_code : String
  pub period : ℕ
  pub status : SettlementStatus
  pub replaced_at : Option ℕ
  pub missing_since : Option ℕ
  pub resolution : Option Document
  pub payment_order : Option Document

pub data SettlementEventSource : Type 0 where
  manual assistant : SettlementEventSource

-- An event of type STATUS_CHANGED.
pub record SettlementEvent : Type 0 where
  pub settlement_id : ℕ
  pub municipality_id : ℕ
  pub from_status : SettlementStatus
  pub to_status : SettlementStatus
  pub source : SettlementEventSource
  pub note : Option String
  pub administrator_id : ℕ

pub record Registry : Type 0 where
  pub settlements : List SettlementRow
  pub events : List SettlementEvent

-- `row.resolution?.issuedAt ?? null`
abbrev pub issued_at_of : Option Document → Option ℕ
issued_at_of none = none
issued_at_of (some d) = some d.issued_at

abbrev pub context_of : SettlementRow → ℕ → StatusContext
context_of row now = record {
  current = row.status;
  resolution_issued_at = issued_at_of row.resolution;
  payment_order_at = issued_at_of row.payment_order;
  now = now;
}

-- where: { id, status, replacedAt: null }
abbrev pub is_claimed : ℕ → SettlementStatus → SettlementRow → Bool
is_claimed id from row = row.id == id && row.status == from && is_none row.replaced_at

abbrev pub set_status : SettlementStatus → SettlementRow → SettlementRow
set_status to row = record row { status = to }

-- The conditional update of a state, with the number of rows that it changed.
abbrev pub claim_status :
    ℕ → SettlementStatus → SettlementStatus → List SettlementRow → List SettlementRow × ℕ
claim_status id from to rows = (
  update_where (is_claimed id from) (set_status to) rows,
  length (filter (is_claimed id from) rows),
)

-- where: { status: VIGENTE, replacedAt: null, resolution: { is: { issuedAt: { lte: … } } } }
abbrev is_due_at : Option ℕ → ℕ → Bool
is_due_at none now = false
is_due_at (some issued) now = leb_ℤ (pos issued) (en_firme_cutoff now)

abbrev pub is_due : ℕ → SettlementRow → Bool
is_due now row =
    row.status == vigente && is_none row.replaced_at && is_due_at (issued_at_of row.resolution) now

unfoldable pub mark_en_firme : ℕ → List SettlementRow → List SettlementRow × ℕ
unfolding en_firme_cutoff
mark_en_firme now rows =
    (update_where (is_due now) (set_status en_firme) rows, length (filter (is_due now) rows))

-- ===== src/Slompsim/Proposal.antt =====
-- apps/frontend/src/domain/slompsim.ts: how the panel reads what Slompsim answers. The changes are
-- those of Assistant.Review; `locale_compare` is String.prototype.localeCompare.
use slomp.Prelude.{
  ℕ, Bool, true, false, ◌&&◌, not, Option, none, some, List, [], ◌∷◌, if◌then◌else◌, ◌==◌, nat_eq,
  all, filter, includes, length, leb, String,
}
use slomp.Settlements.Status.{SettlementStatus, prescrita, pagada, acuerdo_de_pago, status_eq}
use slomp.Assistant.Review.{AcceptedStatusChange, RejectedStatusChange, Explained}

-- The sign of what localeCompare returns.
pub data Order : Type 0 where
  before level after : Order

pub record Proposal : Type 0 where
  pub changes : List AcceptedStatusChange
  pub unchanged : List AcceptedStatusChange
  pub rejected : List RejectedStatusChange
  pub note : Option String
  pub left_out : ℕ

pub record AssistantProposals : Type 0 where
  pub accepted : List AcceptedStatusChange
  pub rejected : List RejectedStatusChange
  pub note : Option String

pub record AssistantSettlement : Type 0 where
  pub id : ℕ
  pub cadastral_code : String
  pub period : ℕ
  pub status : SettlementStatus
  pub allowed_statuses : List SettlementStatus
  pub has_payment_order : Bool
  pub resolution_number : Option String

abbrev is_not_after : Order → Bool → Bool
is_not_after before by_period = true
is_not_after level by_period = by_period
is_not_after after by_period = false

module _ (locale_compare : String → String → Order) where
  -- byPropertyAndPeriod(a, b) <= 0
  abbrev by_property_and_period : AcceptedStatusChange → AcceptedStatusChange → Bool
  by_property_and_period a b =
      is_not_after (locale_compare a.subject.cadastral_code b.subject.cadastral_code)
        (leb a.subject.period b.subject.period)

  -- The stable sort of the changes.
  pub insert_change : AcceptedStatusChange → List AcceptedStatusChange → List AcceptedStatusChange
  insert_change c [] = c ∷ []
  insert_change c (d ∷ ds) =
      let later = insert_change c ds in if by_property_and_period c d then c ∷ d ∷ ds else d ∷ later

  pub sort_changes : List AcceptedStatusChange → List AcceptedStatusChange
  sort_changes [] = []
  sort_changes (c ∷ cs) = insert_change c (sort_changes cs)

  pub to_proposal : AssistantProposals → ℕ → Proposal
  to_proposal p left_out = record {
    changes = sort_changes (filter (λ c. not (c.from == c.to)) p.accepted);
    unchanged = filter (λ c. c.from == c.to) p.accepted;
    rejected = p.rejected;
    note = p.note;
    left_out = left_out;
  }

pub proposal_level : Proposal → ℕ
proposal_level p = if length p.changes == 0 then 1 else if length p.changes == 1 then 2 else 3

abbrev is_current : SettlementStatus → Option Explained → Bool
is_current status none = false
is_current status (some e) = e.current == status

unfoldable pub rejected_targets : List RejectedStatusChange → List SettlementStatus
rejected_targets [] = []
rejected_targets (first ∷ rest) =
    filter
      (λ status.
        not (status == first.to)
        && not (is_current status first.explained)
        && all (λ c. includes c.allowed status && not (is_current status c.explained)) rest)
      first.allowed

pub pending_unlisted : List AssistantSettlement → List AssistantSettlement
pending_unlisted = filter (λ s. not s.has_payment_order && not (s.status == pagada))

abbrev pub unlisted_target_statuses : List SettlementStatus
unlisted_target_statuses = prescrita ∷ pagada ∷ acuerdo_de_pago ∷ []

pub unlisted_targets : List AssistantSettlement → List SettlementStatus
unlisted_targets rows =
    filter (λ status. all (λ s. includes s.allowed_statuses status) rows) unlisted_target_statuses

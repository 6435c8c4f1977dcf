-- ===== src/Assistant/Review.antt =====
-- apps/backend/src/assistant/review-status-changes.ts and assistant-settlement.ts: which of the
-- requested changes the status rules allow. The rows are those of Settlements.Rows.
pub mod Reviewed
use slomp.Prelude.{
  ℕ, Bool, true, false, not, Option, none, some, List, [], ◌∷◌, ◌++◌, if◌then◌else◌, includes, get,
  set, nat_eq, is_some, String,
}
use slomp.Settlements.Status.{SettlementStatus, status_eq, allowed_statuses}
use slomp.Settlements.Rows.{SettlementRow, Document, context_of}

pub record StatusChangeRequest : Type 0 where
  pub settlement_id : ℕ
  pub to_status : SettlementStatus

pub data StatusChangeRejectionReason : Type 0 where
  transition_not_allowed not_found replaced : StatusChangeRejectionReason

pub record StatusChangeSubject : Type 0 where
  pub cadastral_code : String
  pub period : ℕ
  pub resolution_number : Option String

pub record AcceptedStatusChange : Type 0 where
  pub settlement_id : ℕ
  pub subject : StatusChangeSubject
  pub from : SettlementStatus
  pub to : SettlementStatus

-- The part of a rejection that NOT_FOUND leaves out.
pub record Explained : Type 0 where
  pub subject : StatusChangeSubject
  pub current : SettlementStatus
  pub payment_order : Option (String × ℕ)

pub record RejectedStatusChange : Type 0 where
  pub settlement_id : ℕ
  pub to : SettlementStatus
  pub reason : StatusChangeRejectionReason
  pub allowed : List SettlementStatus
  pub explained : Option Explained

pub record StatusChangeReview : Type 0 where
  pub accepted : List AcceptedStatusChange
  pub rejected : List RejectedStatusChange

abbrev pub number_of : Option Document → Option String
number_of none = none
number_of (some d) = some d.number

abbrev pub order_of : Option Document → Option (String × ℕ)
order_of none = none
order_of (some d) = some (d.number, d.issued_at)

abbrev pub subject_of : SettlementRow → StatusChangeSubject
subject_of row = record {
  cadastral_code = row.cadastral_code;
  period = row.period;
  resolution_number = number_of row.resolution;
}

-- allowedStatusesOf
abbrev pub allowed_statuses_of : SettlementRow → ℕ → List SettlementStatus
allowed_statuses_of row now = allowed_statuses (context_of row now)

abbrev pub explained_of : SettlementRow → Explained
explained_of row = record {
  subject = subject_of row;
  current = row.status;
  payment_order = order_of row.payment_order;
}

-- `new Map(rows.map((row) => [row.id, row]))`, from the map `m` on.
unfoldable pub by_id : List (ℕ × SettlementRow) → List SettlementRow → List (ℕ × SettlementRow)
by_id m [] = m
by_id m (row ∷ rows) = by_id (set m row.id row) rows

-- What a round of the loop pushes, and on which list.
pub data Verdict : Type 0 where
  accepts : AcceptedStatusChange → Verdict
  rejects : RejectedStatusChange → Verdict

abbrev pub review_row : StatusChangeRequest → ℕ → Option SettlementRow → Verdict
review_row change now none = rejects (record {
  settlement_id = change.settlement_id;
  to = change.to_status;
  reason = not_found;
  allowed = [];
  explained = none;
})
review_row change now (some row) =
    if is_some row.replaced_at
    then rejects (record {
      settlement_id = change.settlement_id;
      to = change.to_status;
      reason = replaced;
      allowed = [];
      explained = some (explained_of row);
    })
    else if not (includes (allowed_statuses_of row now) change.to_status)
    then rejects (record {
      settlement_id = change.settlement_id;
      to = change.to_status;
      reason = transition_not_allowed;
      allowed = allowed_statuses_of row now;
      explained = some (explained_of row);
    })
    else accepts (record {
      settlement_id = change.settlement_id;
      subject = subject_of row;
      from = row.status;
      to = change.to_status;
    })

abbrev pub push : StatusChangeReview → Verdict → StatusChangeReview
push review (accepts a) = record review { accepted = review.accepted ++ a ∷ [] }
push review (rejects r) = record review { rejected = review.rejected ++ r ∷ [] }

unfoldable pub review_from :
    List (ℕ × SettlementRow)
    → ℕ
    → StatusChangeReview
    → List StatusChangeRequest
    → StatusChangeReview
review_from m now review [] = review
review_from m now review (change ∷ changes) =
    review_from m now (push review (review_row change now (get m change.settlement_id))) changes

unfoldable pub review_status_changes :
    List SettlementRow → List StatusChangeRequest → ℕ → StatusChangeReview
unfolding review_from by_id
review_status_changes rows changes now =
    review_from (by_id [] rows) now (record { accepted = []; rejected = [] }) changes

-- ===== src/Assistant/Changes.antt =====
-- apps/backend/src/assistant/assistant-changes.service.ts, confirm, with assertChanges of
-- assistant-tools.service.ts. The transaction holds its rows locked, so that it is one step on the
-- registry; an error leaves the registry as it was. An id is a natural number, whose test is only
-- that it is positive; the note comes trimmed, and none where it is empty.
pub mod Applied
pub mod Requested
pub mod Confirmed
use slomp.Prelude.{
  ℕ, Bool, true, false, ◌&&◌, not, Option, none, some, List, [], ◌∷◌, ◌++◌, map, if◌then◌else◌,
  ◌==◌, nat_eq, Eq, any, filter, includes, length, ltb, Result, ok, err, ◌>>=◌, ◌>>◌, throw_if,
  String,
}
use slomp.Settlements.Status.{status_eq}
use slomp.Settlements.Rows.{SettlementRow, SettlementEvent, assistant, Registry, claim_status}
use slomp.Assistant.Review.{
  StatusChangeRequest, AcceptedStatusChange, RejectedStatusChange, transition_not_allowed,
  review_status_changes, StatusChangeReview,
}

abbrev pub max_changes_per_call : ℕ
max_changes_per_call = 100

pub data ChangesError : Type 0 where
  no_change too_many_changes id_not_positive repeated_settlement : ChangesError
  changes_rejected : List RejectedStatusChange → ChangesError

-- `new Set(ids).size !== ids.length`
unfoldable pub has_duplicate : List ℕ → Bool
has_duplicate [] = false
has_duplicate (id ∷ ids) = let later = has_duplicate ids in if includes ids id then true else later

unfoldable pub assert_changes : List StatusChangeRequest → Result ChangesError (Unit {0})
unfolding has_duplicate
assert_changes changes =
    let ids = map (λ c. c.settlement_id) changes in
    do
      throw_if (length changes == 0) no_change
      throw_if (ltb max_changes_per_call (length changes)) too_many_changes
      throw_if (any (λ id. id == 0) ids) id_not_positive
      throw_if (has_duplicate ids) repeated_settlement

-- The loop of conditional updates.
unfoldable pub apply_changes :
    List AcceptedStatusChange → List SettlementRow → Result ChangesError (List SettlementRow)
apply_changes [] rows = ok rows
apply_changes (c ∷ cs) rows =
    let claimed = claim_status c.settlement_id c.from c.to rows in
    let rest = apply_changes cs claimed.0 in
    if claimed.1 == 0
    then err (
        changes_rejected (
          record {
            settlement_id = c.settlement_id;
            to = c.to;
            reason = transition_not_allowed;
            allowed = [];
            explained = none;
          }
          ∷ []))
    else rest

abbrev pub event_of : ℕ → ℕ → Option String → AcceptedStatusChange → SettlementEvent
event_of municipality_id administrator_id note c = record {
  settlement_id = c.settlement_id;
  municipality_id = municipality_id;
  from_status = c.from;
  to_status = c.to;
  source = assistant;
  note = note;
  administrator_id = administrator_id;
}

pub record ConfirmStatusChangesResult : Type 0 where
  pub applied : List AcceptedStatusChange
  pub unchanged : List ℕ

-- where: { id: { in: ids }, property: { municipalityId } }
abbrev pub requested : ℕ → List StatusChangeRequest → List SettlementRow → List SettlementRow
requested municipality_id changes = filter (λ s.
    includes (map (λ c. c.settlement_id) changes) s.id && s.municipality_id == municipality_id)

abbrev pub is_change : AcceptedStatusChange → Bool
is_change c = not (c.from == c.to)

-- The transaction, from the review on.
unfoldable pub apply_review :
    ℕ
    → ℕ
    → Option String
    → StatusChangeReview
    → Registry
    → Result ChangesError (Registry × ConfirmStatusChangesResult)
unfolding apply_changes
apply_review municipality_id administrator_id note review w =
    let applied = filter is_change review.accepted in
    do
      throw_if (ltb 0 (length review.rejected)) (changes_rejected review.rejected)
      rows ← apply_changes applied w.settlements
      ok (
        record {
          settlements = rows;
          events = w.events ++ map (event_of municipality_id administrator_id note) applied;
        },
        record {
          applied = applied;
          unchanged = map (λ c. c.settlement_id) (filter (λ c. c.from == c.to) review.accepted);
        },
      )

unfoldable pub confirm :
    ℕ
    → ℕ
    → List StatusChangeRequest
    → Option String
    → ℕ
    → Registry
    → Result ChangesError (Registry × ConfirmStatusChangesResult)
unfolding assert_changes apply_review
confirm municipality_id administrator_id changes note now w = do
  assert_changes changes
  apply_review municipality_id administrator_id note
      (review_status_changes (requested municipality_id changes w.settlements) changes now) w

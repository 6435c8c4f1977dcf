-- ===== src/Assistant/Tests.antt =====
-- The assistant at concrete inputs: a proposal of two changes, and messages at the limit.
use slomp.Prelude.{
  ℕ, ◌*◌, ◌≤◌, ◌≡◌, refl, none, some, List, [], ◌∷◌, filter, length, nat_eq, ok, arith,
}
use slomp.Calendar.{day_ms}
use slomp.Settlements.Status.{
  vigente, pagada, acuerdo_de_pago, base_status, can_prescribe, allowed_statuses,
}
use slomp.Settlements.Rows.{SettlementRow, Registry}
use slomp.Assistant.RateLimiter.{Sent, is_recent, messages_per_window, consume}
use slomp.Assistant.RateLimiter.Window.{Message, accepted, accepted_bound}
use slomp.Assistant.Review.{StatusChangeRequest, by_id, review_from, review_status_changes}
use slomp.Assistant.Changes.{
  ConfirmStatusChangesResult, assert_changes, requested, apply_changes, apply_review, has_duplicate,
  event_of, confirm,
}
use slomp.Assistant.Review.Reviewed.{accepted_of}
use slomp.Assistant.Changes.Confirmed.{IsDone, confirm_succeeds, confirm_ok}

abbrev message : ℕ → Message
message at = record { administrator_id = 1; at = at }

accepted_bound_example :
    length (filter (is_recent 30) (accepted 1 [] (message 10 ∷ message 20 ∷ [])))
    ≤ messages_per_window
accepted_bound_example =
    accepted_bound 1 30 (message 10 ∷ message 20 ∷ []) (omega arith, (omega arith, tt))
      (omega arith)

-- Twenty messages at the time 100.
abbrev full : Sent
full =
    (
      1,
      100 ∷ 100 ∷ 100 ∷ 100 ∷ 100 ∷ 100 ∷ 100 ∷ 100 ∷ 100 ∷ 100 ∷ 100 ∷ 100 ∷ 100 ∷ 100 ∷ 100 ∷ 100
          ∷ 100 ∷ 100 ∷ 100 ∷ 100 ∷ [],
    )
    ∷ []

refused : (consume 1 10100 full).1 ≡ some 50
unfolding consume
refused = refl

abbrev row : ℕ → SettlementRow
row id = record {
  id = id;
  municipality_id = 3;
  property_id = 9;
  cadastral_code = "010000040021000";
  period = 2020;
  status = vigente;
  replaced_at = none;
  missing_since = none;
  resolution = none;
  payment_order = none;
}

abbrev registry : Registry
registry = record { settlements = row 1 ∷ row 2 ∷ row 3 ∷ []; events = [] }

abbrev changes : List StatusChangeRequest
changes =
    record { settlement_id = 1; to_status = pagada }
    ∷ record { settlement_id = 3; to_status = acuerdo_de_pago }
    ∷ []

valid : assert_changes changes ≡ ok tt
unfolding assert_changes has_duplicate
valid = refl

none_rejected :
    (review_status_changes
      (requested 3 changes registry.settlements)
      changes
      (20000 * day_ms)).rejected
    ≡ []
unfolding review_status_changes review_from by_id allowed_statuses base_status can_prescribe
none_rejected = refl

confirm_succeeds_example :
    (w' : Registry) × (result : ConfirmStatusChangesResult) × (confirm 3 7 changes none
        (20000 * day_ms)
        registry
      ≡ ok (w', result))
    × IsDone 3 7 (20000 * day_ms) changes none registry w' result
confirm_succeeds_example =
    confirm_succeeds 3 7 (20000 * day_ms) changes none registry
      ((refl, (refl, tt)), ((refl, tt), (tt, tt))) valid none_rejected

abbrev changed_registry : Registry
changed_registry = record {
  settlements =
      record (row 1) { status = pagada } ∷ row 2 ∷ record (row 3) { status = acuerdo_de_pago } ∷ [];
  events =
      event_of 3 7 none (accepted_of (record { settlement_id = 1; to_status = pagada }) (row 1))
      ∷ event_of 3 7 none
          (accepted_of (record { settlement_id = 3; to_status = acuerdo_de_pago }) (row 3))
      ∷ [];
}

abbrev answer : ConfirmStatusChangesResult
answer = record {
  applied =
      accepted_of (record { settlement_id = 1; to_status = pagada }) (row 1)
      ∷ accepted_of (record { settlement_id = 3; to_status = acuerdo_de_pago }) (row 3)
      ∷ [];
  unchanged = [];
}

confirmed : confirm 3 7 changes none (20000 * day_ms) registry ≡ ok (changed_registry, answer)
unfolding confirm assert_changes has_duplicate apply_review apply_changes review_status_changes
    review_from by_id allowed_statuses base_status can_prescribe
confirmed = refl

confirm_ok_example :
    ((review_status_changes
        (requested 3 changes registry.settlements)
        changes
        (20000 * day_ms)).rejected
      ≡ [])
    × IsDone 3 7 (20000 * day_ms) changes none registry changed_registry answer
confirm_ok_example =
    confirm_ok 3 7 (20000 * day_ms) changes none registry changed_registry answer
      ((refl, (refl, tt)), ((refl, tt), (tt, tt))) confirmed

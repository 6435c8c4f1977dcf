-- ===== src/Assistant/Changes/Confirmed.antt =====
-- Confirming a proposal: all of its changes or none.
use slomp.Prelude.{
  ℕ, ◌≡◌, refl, sym, ap, ◌∙◌, subst, Bool, false, Option, List, [], ◌∷◌, ◌++◌, map, not, ◌==◌,
  nat_eq, filter, length, ltb, arith, Result, ok, err, ◌>>◌, All, Bool-cases, inl, inr, String,
}
use slomp.Settlements.Status.{status_eq}
use slomp.Settlements.Rows.{SettlementRow, SettlementEvent, assistant, Registry}
use slomp.Assistant.Review.{
  StatusChangeRequest, AcceptedStatusChange, StatusChangeReview, by_id, review_status_changes,
}
use slomp.Assistant.Review.Reviewed.{accepted_of, IsKeyed, review_from-IsReviewed}
use slomp.Assistant.Changes.{
  ChangesError, has_duplicate, assert_changes, event_of, ConfirmStatusChangesResult, requested,
  is_change, apply_review, confirm,
}
use slomp.Assistant.Changes.Applied.{apply_changes_lem}
use slomp.Assistant.Changes.Requested.{
  selected, IsConfirmed, ids_of_reviewed, distinct_of, listed, IsClaimable-Reviewed,
  IsConfirmed-Reviewed, map-filter-Reviewed,
}

length-zero : {A : Type 0} (xs : List A) → length xs ≡ 0 → xs ≡ []
length-zero [] h = refl
length-zero (x ∷ xs) h = absurd (omega arith)

map-same : {A : Type 0} (xs : List A) → map (λ x. x) xs ≡ xs
map-same [] = refl
map-same (x ∷ xs) = ap (◌∷◌ x) (map-same xs)

-- The change gives its settlement another state.
abbrev pub moves : StatusChangeRequest → SettlementRow → Bool
moves c row = not (row.status == c.to_status)

-- The event of a change.
abbrev pub recorded : ℕ → ℕ → Option String → StatusChangeRequest → SettlementRow → SettlementEvent
recorded m a comment c row = record {
  settlement_id = c.settlement_id;
  municipality_id = m;
  from_status = row.status;
  to_status = c.to_status;
  source = assistant;
  note = comment;
  administrator_id = a;
}

-- A confirmation that went through: every change is there, and each change of a state, and nothing
-- else, is reported as applied and has its event.
pub record IsDone (m a now : ℕ) (changes : List StatusChangeRequest) (comment : Option String)
    (w w' : Registry) (result : ConfirmStatusChangesResult) : Type 0 where
  pub confirmed : All (IsConfirmed m now w.settlements w'.settlements) changes
  pub applied : result.applied ≡ selected m moves accepted_of changes w.settlements
  pub unchanged :
      result.unchanged
      ≡ selected m
          (λ c row. row.status == c.to_status)
          (λ c row. c.settlement_id)
          changes
          w.settlements
  pub events : w'.events ≡ w.events ++ selected m moves (recorded m a comment) changes w.settlements

abbrev review_of : ℕ → ℕ → List StatusChangeRequest → Registry → StatusChangeReview
review_of m now changes w = review_status_changes (requested m changes w.settlements) changes now

apply_review_lem :
    (m a now : ℕ) (changes : List StatusChangeRequest) (comment : Option String) (w : Registry)
    → IsKeyed w.settlements
    → has_duplicate (map (λ c. c.settlement_id) changes) ≡ false
    → (review_of m now changes w).rejected ≡ []
    → (w' : Registry) × (result : ConfirmStatusChangesResult) × (apply_review m a comment
          (review_of m now changes w)
          w
        ≡ ok (w', result))
      × IsDone m a now changes comment w w' result
unfolding apply_review review_status_changes
apply_review_lem m a now changes comment w keyed once none_rejected =
    let (xs, accepted, reviewed) =
      review_from-IsReviewed (by_id [] (requested m changes w.settlements)) now
        (record { accepted = []; rejected = [] }) changes none_rejected in
    let distinct = distinct_of xs (ap has_duplicate (ids_of_reviewed reviewed) ∙ once) in
    let (rows, done, all_set) =
      apply_changes_lem m xs w.settlements distinct
        (IsClaimable-Reviewed m now changes w.settlements keyed reviewed (listed changes)) in
    let applied : List AcceptedStatusChange = filter is_change xs in
    let all_listed = listed changes in
    let before = w.settlements in
    (
      record { settlements = rows; events = w.events ++ map (event_of m a comment) applied },
      record {
        applied = applied;
        unchanged = map (λ c. c.settlement_id) (filter (λ c. c.from == c.to) xs);
      },
      rw (none_rejected, accepted, done) refl,
      record {
        confirmed =
            IsConfirmed-Reviewed m now changes w.settlements keyed rows reviewed (listed changes)
              all_set;
        applied =
            sym (map-same applied)
            ∙ map-filter-Reviewed m now changes before keyed is_change (λ x. x) reviewed all_listed;
        unchanged =
            map-filter-Reviewed m now changes before keyed (λ x. x.from == x.to)
              (λ x. x.settlement_id) reviewed all_listed;
        events = ap (◌++◌ w.events) (
            map-filter-Reviewed m now changes before keyed is_change (event_of m a comment) reviewed
              all_listed);
      },
    )

once_of :
    (changes : List StatusChangeRequest)
    → assert_changes changes ≡ ok tt
    → has_duplicate (map (λ c. c.settlement_id) changes) ≡ false
unfolding assert_changes
once_of changes valid = elim (Bool-cases (has_duplicate (map (λ c. c.settlement_id) changes))) [
  | inr once ↦ once
  | inl again ↦ absurd (ground arith)
]

-- Where ids are unique, valid changes of which the review rejects none are all confirmed: no update
-- misses its settlement, every one has the requested state afterwards, and the changes of a state
-- are reported as applied, the others as unchanged, and the events are those there were and, in the
-- order of the request, one for each change of a state.
pub confirm_succeeds :
    (m a now : ℕ) (changes : List StatusChangeRequest) (comment : Option String) (w : Registry)
    → IsKeyed w.settlements
    → assert_changes changes ≡ ok tt
    → (review_of m now changes w).rejected ≡ []
    → (w' : Registry) × (result : ConfirmStatusChangesResult) × (confirm m a changes comment now w
        ≡ ok (w', result))
      × IsDone m a now changes comment w w' result
unfolding confirm
confirm_succeeds m a now changes comment w keyed valid none_rejected =
    let (w', result, done, is_done) =
      apply_review_lem m a now changes comment w keyed (once_of changes valid) none_rejected in
    (w', result, rw (valid) done, is_done)

ok_injective :
    {x y : Registry × ConfirmStatusChangesResult}
    → ◌≡◌ {A = Result ChangesError _} (ok x) (ok y)
    → x ≡ y
ok_injective e = cc

valid_of :
    (m a now : ℕ) (changes : List StatusChangeRequest) (comment : Option String) (w : Registry)
    (answer : Registry × ConfirmStatusChangesResult)
    → confirm m a changes comment now w ≡ ok answer
    → assert_changes changes ≡ ok tt
unfolding confirm
valid_of m a now changes comment w answer e = go (assert_changes changes) e
  where
    go :
        (r : Result ChangesError (Unit {0}))
        → (r >> apply_review m a comment (review_of m now changes w) w) ≡ ok answer
        → r ≡ ok tt
    go (ok tt) e = refl
    go (err x) e = absurd (ground arith)

rejected_of :
    (m a : ℕ) (comment : Option String) (review : StatusChangeReview) (w : Registry)
    (answer : Registry × ConfirmStatusChangesResult)
    → apply_review m a comment review w ≡ ok answer
    → review.rejected ≡ []
unfolding apply_review
rejected_of m a comment review w answer e = elim (Bool-cases (ltb 0 (length review.rejected))) [
  | inl some_rejected ↦ absurd (ground arith)
  | inr none_rejected ↦ length-zero review.rejected (ground arith)
]

-- Where ids are unique, a confirmation that succeeds rejected none of its changes: each was allowed
-- for the settlement as it was, which has the requested state now; the changes of a state are
-- reported as applied, the others as unchanged, and the events are those there were and, in the
-- order of the request, one for each change of a state.
pub confirm_ok :
    (m a now : ℕ) (changes : List StatusChangeRequest) (comment : Option String) (w w' : Registry)
    (result : ConfirmStatusChangesResult)
    → IsKeyed w.settlements
    → confirm m a changes comment now w ≡ ok (w', result)
    → ((review_of m now changes w).rejected ≡ []) × IsDone m a now changes comment w w' result
unfolding confirm
confirm_ok m a now changes comment w w' result keyed e =
    let valid = valid_of m a now changes comment w (w', result) e in
    let reviewed : apply_review m a comment (review_of m now changes w) w ≡ ok (w', result) =
      sym (ap (λ r. r >> apply_review m a comment (review_of m now changes w) w) valid) ∙ e in
    let none_rejected =
      rejected_of m a comment (review_of m now changes w) w (w', result) reviewed in
    let (v, r, done, is_done) =
      apply_review_lem m a now changes comment w keyed (once_of changes valid) none_rejected in
    let same : (v, r) ≡ (w', result) = ok_injective (sym done ∙ reviewed) in
    (none_rejected, subst (λ x. IsDone m a now changes comment w x.0 x.1) same is_done)

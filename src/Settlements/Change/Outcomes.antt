-- ===== src/Settlements/Change/Outcomes.antt =====
-- What a change of state that succeeds has checked and written.
use slomp.Prelude.{
  ℕ, ◌≡◌, ◌≢◌, refl, sym, ap, subst, ◌∙◌, Option, none, some, List, [], ◌∷◌, ◌++◌, ◌==◌, nat_eq,
  length, filter, includes, is_some, Result, ok, err, ◌>>=◌, arith, Bool-cases, Option-cases, inl,
  inr, ◌⊎◌,
}
use slomp.Database.{update_where}
use slomp.Settlements.Status.{
  SettlementStatus, status_eq, allowed_statuses, is_transition_allowed, status_beq_iff,
}
use slomp.Settlements.Status.Transitions.{MaySet, is_transition_allowed_iff}
use slomp.Settlements.Rows.{SettlementRow, Registry, context_of, is_claimed, set_status}
use slomp.Settlements.Change.{
  ChangeError, find_settlement, check_change, manual_event, write_change, change_status,
}

-- What was checked on the settlement that was read.
pub record IsChecked (settlement : SettlementRow) (target : SettlementStatus) (now : ℕ)
    : Type 0 where
  pub current : settlement.replaced_at ≡ none
  pub allowed : MaySet (context_of settlement now) target

-- What was written: nothing for the state it has, else the claimed rows and one event.
pub record IsWritten (m a id : ℕ) (from to : SettlementStatus) (w w' : Registry) : Type 0 where
  pub claimed : (to ≡ from) ⊎ (length (filter (is_claimed id from) w.settlements) ≢ 0)
  pub rows : w'.settlements ≡ update_where (is_claimed id from) (set_status to) w.settlements
  pub events :
      (to ≡ from) × (w'.events ≡ w.events)
      ⊎ ((to ≢ from) × (w'.events ≡ w.events ++ manual_event m a id from to ∷ []))

check_change_ok :
    (m id now : ℕ) (status : Option SettlementStatus) (read : Registry) (settlement : SettlementRow)
    (target : SettlementStatus)
    → check_change m id status now read ≡ ok (settlement, target)
    → (status ≡ some target)
      × (find_settlement m id read ≡ some settlement)
      × IsChecked settlement target now
unfolding check_change is_transition_allowed
check_change_ok m id now none read settlement target e = absurd (ground arith)
check_change_ok m id now (some t) read settlement target e =
    elim (Option-cases (find_settlement m id read)) [
      | inl missing ↦ absurd (ground arith)
      | inr (s, found) ↦ elim (Bool-cases (is_some s.replaced_at)) [
        | inl replaced ↦ absurd (ground arith)
        | inr current ↦ elim (Bool-cases (includes (allowed_statuses (context_of s now)) t)) [
          | inr refused ↦ absurd (ground arith)
          | inl allowed ↦
              let may : MaySet (context_of s now) t =
                (is_transition_allowed_iff (context_of s now) t).0 allowed in
              let checked : IsChecked s t now = record { current = ground arith; allowed = may } in
              let row : s ≡ settlement = ground arith in
              let to : t ≡ target = ground arith in
              (
                ap some to,
                found ∙ ap some row,
                subst (λ x. IsChecked settlement x now) to
                    (subst (λ x. IsChecked x t now) row checked),
              )
        ]
      ]
    ]

set_status-same :
    (id : ℕ) (from to : SettlementStatus) (rows : List SettlementRow)
    → to ≡ from
    → update_where (is_claimed id from) (set_status to) rows ≡ rows
set_status-same id from to [] same = refl
set_status-same id from to (row ∷ rows) same = elim (Bool-cases (is_claimed id from row)) [
  | inr e ↦ rw e (ap (◌∷◌ row) (set_status-same id from to rows same))
  | inl e ↦
      let status : row.status ≡ to = (status_beq_iff row.status from).0 (ground arith) ∙ sym same in
      rw e (
        ap (λ x. record row { status = x } ∷ update_where (is_claimed id from) (set_status to) rows)
          (sym status)
        ∙ ap (◌∷◌ row) (set_status-same id from to rows same))
]

write_change_ok :
    (m a id : ℕ) (from to : SettlementStatus) (w w' : Registry)
    → write_change m a id from to w ≡ ok w'
    → IsWritten m a id from to w w'
unfolding write_change
write_change_ok m a id from to w w' e = elim (Bool-cases (to == from)) [
  | inl same ↦
      let eq : to ≡ from = (status_beq_iff to from).0 same in
      let kept : w ≡ w' = ground arith in
      record {
        claimed = inl eq;
        rows =
            ap (λ x. x.settlements) (sym kept) ∙ sym (set_status-same id from to w.settlements eq);
        events = inl (eq, ap (λ x. x.events) (sym kept));
      }
  | inr other ↦ elim (Bool-cases (length (filter (is_claimed id from) w.settlements) == 0)) [
    | inl lost ↦ absurd (ground arith)
    | inr claimed ↦
        let eq : to ≢ from = λ q. absurd (ground (arith, (status_beq_iff to from).1 q)) in
        let written : record {
          settlements = update_where (is_claimed id from) (set_status to) w.settlements;
          events = w.events ++ manual_event m a id from to ∷ [];
        }
            ≡ w' =
          ground arith in
        record {
          claimed = inr (λ q. absurd (ground arith));
          rows = ap (λ x. x.settlements) (sym written);
          events = inr (eq, ap (λ x. x.events) (sym written));
        }
  ]
]

-- A change of state that succeeds found a current settlement of the municipality, whose rules allow
-- the target at that time. It claimed that settlement in the state that was read, and wrote one
-- event of it, or the target is the state that was read, and nothing was written.
pub change_status_ok :
    (m a id now : ℕ) (status : Option SettlementStatus) (read w w' : Registry)
    → change_status m a id status now read w ≡ ok w'
    → (settlement : SettlementRow) × (target : SettlementStatus) × (status ≡ some target)
      × (find_settlement m id read ≡ some settlement)
      × IsChecked settlement target now
      × IsWritten m a id settlement.status target w w'
unfolding change_status
change_status_ok m a id now status read w w' e = go (check_change m id status now read) refl e
  where
    go :
        (r : Result ChangeError (SettlementRow × SettlementStatus))
        → check_change m id status now read ≡ r
        → (r >>= λ c. write_change m a id c.0.status c.1 w) ≡ ok w'
        → (settlement : SettlementRow) × (target : SettlementStatus) × (status ≡ some target)
          × (find_settlement m id read ≡ some settlement)
          × IsChecked settlement target now
          × IsWritten m a id settlement.status target w w'
    go (err x) checked e = absurd (ground arith)
    go (ok (s, t)) checked e =
        let (a', b, c) = check_change_ok m id now status read s t checked in
        (s, t, a', b, c, write_change_ok m a id s.status t w w' e)

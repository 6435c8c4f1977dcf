-- ===== src/PaymentOrders/Rules/Eligibility.antt =====
-- When a payment order can be generated, and how the rules agree with the status rules.
use slomp.Prelude.{
  ℕ, ◌+◌, ◌*◌, ◌≤◌, ◌<◌, ◌≡◌, refl, ◌↔◌, ◌⊎◌, true, false, ◌||◌, Option, none, some, is_none, arith,
}
use slomp.Calendar.{day_ms}
use slomp.Settlements.Status.{vigente, en_firme, base_status, can_prescribe}
use slomp.Settlements.Status.Transitions.{base_status-en_firme_iff}
use slomp.PaymentOrders.Rules.{
  PaymentOrderCandidate, eligible, ineligible, not_yet_firm, evaluate_payment_order_eligibility,
  is_firm, can_prescribe_from_firm,
}

-- Owed, current, in a resolution that is at least sixty days old, and in no order yet.
pub record IsOwedAndFirm (c : PaymentOrderCandidate) (now : ℕ) : Type 0 where
  pub current : c.replaced_at ≡ none
  pub free : c.has_payment_order ≡ false
  pub owed : (c.status ≡ vigente) ⊎ (c.status ≡ en_firme)
  pub issued : ℕ
  pub resolved : c.resolution_issued_at ≡ some issued
  pub firm : issued + 60 * day_ms ≤ now

eligible_of :
    (c : PaymentOrderCandidate) (now : ℕ) (o : Option ℕ)
    → c.resolution_issued_at ≡ o
    → evaluate_payment_order_eligibility c now ≡ eligible
    → IsOwedAndFirm c now
unfolding evaluate_payment_order_eligibility
eligible_of c now none e h = absurd (ground arith)
eligible_of c now (some t) e h = record {
  current = ground arith;
  free = ground arith;
  owed = ground arith;
  issued = t;
  resolved = e;
  firm = ground arith;
}

-- A payment order can be generated exactly for a settlement that is not replaced, has no payment
-- order, is VIGENTE or EN_FIRME, and has a resolution issued at least sixty days ago.
pub eligible_iff :
    (c : PaymentOrderCandidate) (now : ℕ)
    → (evaluate_payment_order_eligibility c now ≡ eligible) ↔ IsOwedAndFirm c now
unfolding evaluate_payment_order_eligibility
eligible_iff c now = (eligible_of c now _ refl, λ o. ground arith)

-- The day that NOT_YET_FIRM names lies in the future, and the same settlement is eligible exactly
-- from that instant on.
not_yet_firm-until :
    (c : PaymentOrderCandidate) (now later day : ℕ)
    → evaluate_payment_order_eligibility c now ≡ ineligible not_yet_firm (some day)
    → (now < day) × ((evaluate_payment_order_eligibility c later ≡ eligible) ↔ (day ≤ later))
unfolding evaluate_payment_order_eligibility
not_yet_firm-until c now later day h = ground arith

-- A resolution is firm for payment orders exactly when the derived state of its settlement is
-- EN_FIRME.
is_firm-base_status :
    (issued now : ℕ) → (is_firm issued now ≡ true) ↔ (base_status (some issued) now ≡ en_firme)
unfolding is_firm
is_firm-base_status issued now = ground (arith, base_status-en_firme_iff (some issued) now)

-- The rule of prescription of the settlement states is canPrescribeFromFirm or the absence of a
-- payment order: the two differ exactly on a settlement in no payment order.
can_prescribe-from_firm :
    (ordered : Option ℕ) (now : ℕ)
    → can_prescribe ordered now ≡ (is_none ordered || can_prescribe_from_firm ordered now)
unfolding can_prescribe can_prescribe_from_firm
can_prescribe-from_firm none now = refl
can_prescribe-from_firm (some t) now = refl

-- ===== src/PaymentOrders/Rules.antt =====
-- apps/backend/src/payment-orders/payment-order-rules.ts
pub mod Eligibility
pub mod Grouping
use slomp.Prelude.{
  ℕ, ◌+◌, ◌*◌, ◌≤◌, ◌<◌, ◌≡◌, ◌↔◌, Bool, true, false, not, Option, none, some, get_or, List, [],
  ◌∷◌, ◌++◌, map, arith, if◌then◌else◌, leb, includes, get, set, nat_eq, Eq, is_some,
}
use slomp.Prelude.Sorting.{sort_by}
use slomp.Calendar.{day_ms, add_years}
use slomp.Settlements.Status.{
  SettlementStatus, vigente, en_firme, pagada, acuerdo_de_pago, prescrita, en_firme_days,
  prescription_after_payment_order_years, status_eq,
}

abbrev pub firm_after_days : ℕ
firm_after_days = en_firme_days

abbrev pub prescription_years_after_payment_order : ℕ
prescription_years_after_payment_order = prescription_after_payment_order_years

abbrev pub firm_capable_statuses : List SettlementStatus
firm_capable_statuses = vigente ∷ en_firme ∷ []

unfoldable pub firm_on : ℕ → ℕ
firm_on resolution_issued_at = resolution_issued_at + firm_after_days * day_ms

unfoldable pub is_firm : ℕ → ℕ → Bool
unfolding firm_on
is_firm resolution_issued_at now = leb (firm_on resolution_issued_at) now

pub data PaymentOrderIneligibleReason : Type 0 where
  settlement_replaced already_has_payment_order no_resolution : PaymentOrderIneligibleReason
  status_not_eligible not_yet_firm : PaymentOrderIneligibleReason

pub record PaymentOrderCandidate : Type 0 where
  pub status : SettlementStatus
  pub replaced_at : Option ℕ
  pub resolution_issued_at : Option ℕ
  pub has_payment_order : Bool

pub data PaymentOrderEligibility : Type 0 where
  eligible : PaymentOrderEligibility
  ineligible : PaymentOrderIneligibleReason → Option ℕ → PaymentOrderEligibility

abbrev evaluate_issued : SettlementStatus → ℕ → Option ℕ → PaymentOrderEligibility
evaluate_issued status now none = ineligible no_resolution none
evaluate_issued status now (some issued) =
    if not (includes firm_capable_statuses status)
    then ineligible status_not_eligible none
    else if not (is_firm issued now)
    then ineligible not_yet_firm (some (firm_on issued))
    else eligible

unfoldable pub evaluate_payment_order_eligibility :
    PaymentOrderCandidate → ℕ → PaymentOrderEligibility
unfolding is_firm
evaluate_payment_order_eligibility c now =
    if is_some c.replaced_at
    then ineligible settlement_replaced none
    else if c.has_payment_order
    then ineligible already_has_payment_order none
    else evaluate_issued c.status now c.resolution_issued_at

unfoldable pub prescription_available_on : ℕ → ℕ
prescription_available_on issued = add_years issued prescription_years_after_payment_order

unfoldable pub can_prescribe_from_firm : Option ℕ → ℕ → Bool
unfolding prescription_available_on
can_prescribe_from_firm none now = false
can_prescribe_from_firm (some issued) now = leb (prescription_available_on issued) now

pub record PaymentOrderGroup : Type 0 where
  pub property_id : ℕ
  pub settlement_ids : List ℕ

pub record OrderableSettlement : Type 0 where
  pub id : ℕ
  pub property_id : ℕ

-- the loop of groupSettlementsByProperty
pub by_property : List (ℕ × List ℕ) → List OrderableSettlement → List (ℕ × List ℕ)
by_property m [] = m
by_property m (s ∷ ss) =
    by_property (set m s.property_id (get_or (get m s.property_id) [] ++ s.id ∷ [])) ss

unfoldable pub group_settlements_by_property : List OrderableSettlement → List PaymentOrderGroup
unfolding by_property
group_settlements_by_property settlements =
    map (λ g. record { property_id = g.0; settlement_ids = sort_by (λ i. i) g.1 })
      (sort_by (λ g. g.0) (by_property [] settlements))

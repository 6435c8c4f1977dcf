-- ===== src/PaymentOrders/Tests.antt =====
-- The rules of payment orders at concrete inputs.
use slomp.Prelude.{◌*◌, ◌≡◌, ◌↔◌, refl, false, none, some}
use slomp.Calendar.{day_ms}
use slomp.Settlements.Status.{vigente}
use slomp.PaymentOrders.Rules.{
  PaymentOrderCandidate, eligible, ineligible, not_yet_firm, evaluate_payment_order_eligibility,
}
use slomp.PaymentOrders.Rules.Eligibility.{IsOwedAndFirm, eligible_iff}

abbrev candidate : PaymentOrderCandidate
candidate = record {
  status = vigente;
  replaced_at = none;
  resolution_issued_at = some (100 * day_ms);
  has_payment_order = false;
}

not_firm :
    evaluate_payment_order_eligibility candidate (120 * day_ms)
    ≡ ineligible not_yet_firm (some (160 * day_ms))
unfolding evaluate_payment_order_eligibility
not_firm = refl

eligible_iff_example :
    (evaluate_payment_order_eligibility candidate (160 * day_ms) ≡ eligible)
    ↔ IsOwedAndFirm candidate (160 * day_ms)
eligible_iff_example = eligible_iff candidate (160 * day_ms)

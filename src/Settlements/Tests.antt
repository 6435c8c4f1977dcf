-- ===== src/Settlements/Tests.antt =====
-- The status rules at concrete inputs.
use slomp.Prelude.{none, ◌*◌, ◌≡◌, ◌↔◌, refl, true, some, [], ◌∷◌, ok}
use slomp.Calendar.{day_ms}
use slomp.Settlements.Rows.{SettlementRow, Registry}
use slomp.Settlements.Change.{
  change_status, check_change, write_change, find_settlement, manual_event,
}
use slomp.Settlements.Change.Outcomes.{IsChecked, IsWritten, change_status_ok}
use slomp.Settlements.Status.{
  SettlementStatus, allowed_statuses, base_status, can_prescribe, StatusContext, vigente, pagada,
  prescrita, is_transition_allowed,
}
use slomp.Settlements.Status.Transitions.{MaySet, is_transition_allowed_iff}

-- A settlement of 2024, resolved on 1 March 2024 and ordered on 1 June 2024.
abbrev ordered : StatusContext
ordered = record {
  current = pagada;
  resolution_issued_at = some (19783 * day_ms);
  payment_order_at = some (19875 * day_ms);
  now = 20000 * day_ms;
}

is_transition_allowed_iff_example :
    (is_transition_allowed ordered prescrita ≡ true) ↔ MaySet ordered prescrita
is_transition_allowed_iff_example = is_transition_allowed_iff ordered prescrita

abbrev row : SettlementRow
row = record {
  id = 1;
  municipality_id = 3;
  property_id = 9;
  cadastral_code = "010000040021000";
  period = 2020;
  status = vigente;
  replaced_at = none;
  missing_since = none;
  resolution = some (record { id = 5; number = "2024-0001"; issued_at = 19783 * day_ms });
  payment_order = none;
}

abbrev registry : Registry
registry = record { settlements = row ∷ []; events = [] }

abbrev paid_registry : Registry
paid_registry = record {
  settlements = record row { status = pagada } ∷ [];
  events = manual_event 3 7 1 vigente pagada ∷ [];
}

paid : change_status 3 7 1 (some pagada) (20000 * day_ms) registry registry ≡ ok paid_registry
unfolding change_status check_change write_change allowed_statuses base_status can_prescribe
paid = refl

change_status_ok_example :
    (settlement : SettlementRow) × (target : SettlementStatus) × (some pagada ≡ some target)
    × (find_settlement 3 1 registry ≡ some settlement)
    × IsChecked settlement target (20000 * day_ms)
    × IsWritten 3 7 1 settlement.status target registry paid_registry
change_status_ok_example =
    change_status_ok 3 7 1 (20000 * day_ms) (some pagada) registry registry paid_registry paid

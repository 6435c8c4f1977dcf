-- ===== src/Settlements/Status/Transitions.antt =====
-- Which transitions the status rules allow.
use slomp.Prelude.{
  ℕ, ◌+◌, ◌*◌, ◌≤◌, ◌<◌, ◌≡◌, ◌≢◌, ◌↔◌, ◌⊎◌, true, false, Option, none, some, arith,
}
use slomp.Calendar.{day_ms, add_years}
use slomp.Calendar.Years.{add_years_five}
use slomp.Settlements.Status.{
  SettlementStatus, vigente, en_firme, pagada, acuerdo_de_pago, prescrita, StatusContext,
  base_status, can_prescribe, is_transition_allowed,
}

-- A settlement whose resolution is at least sixty days old.
abbrev pub IsFinal : Option ℕ → ℕ → Type 0
IsFinal none now = ⊥
IsFinal (some issued) now = issued + 60 * day_ms ≤ now

-- A settlement in no payment order, or in one that is at least five years old.
abbrev pub IsPrescribable : Option ℕ → ℕ → Type 0
IsPrescribable none now = Unit
IsPrescribable (some ordered) now = add_years ordered 5 ≤ now

-- The Administrator's rules, written out for each state that may be set.
abbrev pub MaySet : StatusContext → SettlementStatus → Type 0
MaySet c vigente = (c.current ≡ vigente) ⊎ ¬ IsFinal c.resolution_issued_at c.now
MaySet c en_firme = (c.current ≡ en_firme) ⊎ IsFinal c.resolution_issued_at c.now
MaySet c pagada = Unit
MaySet c acuerdo_de_pago = Unit
MaySet c prescrita = (c.current ≡ prescrita) ⊎ IsPrescribable c.payment_order_at c.now

pub base_status-en_firme_iff :
    (r : Option ℕ) (now : ℕ) → (base_status r now ≡ en_firme) ↔ IsFinal r now
unfolding base_status
base_status-en_firme_iff none now = ground arith
base_status-en_firme_iff (some issued) now = ground arith

pub can_prescribe_iff :
    (p : Option ℕ) (now : ℕ) → (can_prescribe p now ≡ true) ↔ IsPrescribable p now
unfolding can_prescribe
can_prescribe_iff none now = ground arith
can_prescribe_iff (some ordered) now = ground arith

-- The code allows a target exactly when the rules do: paid and payment agreement always, the
-- current state always, VIGENTE only while the resolution is not final, EN_FIRME only once it is,
-- PRESCRITA only for a settlement in no payment order or in one of five years ago or more.
pub is_transition_allowed_iff :
    (c : StatusContext) (target : SettlementStatus)
    → (is_transition_allowed c target ≡ true) ↔ MaySet c target
unfolding is_transition_allowed
is_transition_allowed_iff c vigente =
    ground (arith, base_status-en_firme_iff c.resolution_issued_at c.now)
is_transition_allowed_iff c en_firme =
    ground (arith, base_status-en_firme_iff c.resolution_issued_at c.now)
is_transition_allowed_iff c prescrita = ground (arith, can_prescribe_iff c.payment_order_at c.now)
is_transition_allowed_iff c _ = ground arith

-- A settlement that is not VIGENTE, sixty days or more after its resolution, cannot be set to
-- VIGENTE at any later time.
en_firme-stays :
    (c : StatusContext) (issued later : ℕ)
    → c.resolution_issued_at ≡ some issued
    → c.current ≢ vigente
    → issued + 60 * day_ms ≤ c.now
    → is_transition_allowed (record c { now = c.now + later }) vigente ≡ false
en_firme-stays c issued later r n h =
    ground (arith, is_transition_allowed_iff (record c { now = c.now + later }) vigente)

-- A settlement of a payment order that is not prescribed cannot be set to PRESCRITA within 1824
-- days of the order.
prescrita_too_early :
    (c : StatusContext) (ordered : ℕ)
    → c.payment_order_at ≡ some ordered
    → c.current ≢ prescrita
    → c.now < ordered + 1824 * day_ms
    → is_transition_allowed c prescrita ≡ false
prescrita_too_early c ordered p n h =
    ground (arith, is_transition_allowed_iff c prescrita, add_years_five ordered)

-- A settlement of a payment order can be set to PRESCRITA from 1828 days after the order on.
prescrita_in_time :
    (c : StatusContext) (ordered : ℕ)
    → c.payment_order_at ≡ some ordered
    → ordered + 1828 * day_ms ≤ c.now
    → is_transition_allowed c prescrita ≡ true
prescrita_in_time c ordered p h =
    ground (arith, is_transition_allowed_iff c prescrita, add_years_five ordered)

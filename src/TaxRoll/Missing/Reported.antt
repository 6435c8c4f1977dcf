-- ===== src/TaxRoll/Missing/Reported.antt =====
-- Which periods the comparison of two imports reports.
use slomp.Prelude.{ℕ, ◌≡◌, ap, ◌↔◌, true, List, [], ◌∷◌, map, arith, includes, nat_eq, pair_eq, Any}
use slomp.TaxRoll.Missing.{
  CurrentPeriod, IncomingPeriod, incoming_key, is_missing, find_missing_periods,
}

-- The import brings the property.
abbrev pub Brings : List IncomingPeriod → ℕ → Type 0
Brings incoming p = Any (λ row. row.property_id ≡ p) incoming

-- The import brings the property with the period.
abbrev pub BringsPeriod : List IncomingPeriod → ℕ → ℕ → Type 0
BringsPeriod incoming p y = Any (λ row. (row.property_id ≡ p) × (row.period ≡ y)) incoming

Brings-iff :
    (incoming : List IncomingPeriod) (p : ℕ)
    → (includes (map (λ row. row.property_id) incoming) p ≡ true) ↔ Brings incoming p
Brings-iff [] p = ground arith
Brings-iff (row ∷ rows) p = ground (arith, Brings-iff rows p)

BringsPeriod-iff :
    (incoming : List IncomingPeriod) (p y : ℕ)
    → (includes (map incoming_key incoming) (p, y) ≡ true) ↔ BringsPeriod incoming p y
BringsPeriod-iff [] p y = ground arith
BringsPeriod-iff (row ∷ rows) p y = ground (arith, BringsPeriod-iff rows p y)

is_missing_iff :
    (incoming : List IncomingPeriod) (s : CurrentPeriod)
    → (is_missing incoming s ≡ true)
      ↔ (Brings incoming s.property_id × ¬ BringsPeriod incoming s.property_id s.period)
is_missing_iff incoming s =
    ground
      (arith, Brings-iff incoming s.property_id, BringsPeriod-iff incoming s.property_id s.period)

-- A settlement is reported exactly when it is a current one, the import brings its property, and
-- the import does not bring its period.
pub find_missing_periods_iff :
    (current : List CurrentPeriod) (incoming : List IncomingPeriod) (s : CurrentPeriod)
    → Any (λ x. x ≡ s) (find_missing_periods current incoming) ↔ (
        Any (λ x. x ≡ s) current
        × Brings incoming s.property_id
        × ¬ BringsPeriod incoming s.property_id s.period)
unfolding find_missing_periods
find_missing_periods_iff [] incoming s = ground arith
find_missing_periods_iff (x ∷ current) incoming s = ground (
  arith,
  find_missing_periods_iff current incoming s,
  is_missing_iff incoming s,
  λ (e : x ≡ s). ap (is_missing incoming) e,
)

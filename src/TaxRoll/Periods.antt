-- ===== src/TaxRoll/Periods.antt =====
-- apps/backend/src/tax-roll/period-rules.ts. A period is a calendar year; it is an integer by type,
-- so the test Number.isInteger is left out.
use slomp.Prelude.{
  ℕ, ◌+◌, ◌-◌, ◌*◌, ◌/◌, ◌≤◌, ◌<◌, ◌≡◌, ◌↔◌, Bool, true, ◌&&◌, arith, ltb, leb, pos, sub_ℕ, leb_ℤ,
  if◌then◌else◌,
}
use slomp.Calendar.{day_ms, year_of_day, day_from_year}
use slomp.Calendar.Years.{year_of_day_bounds}

abbrev pub property_tax_start_year : ℕ
property_tax_start_year = 1980

abbrev pub prescription_years : ℕ
prescription_years = 5

unfoldable pub is_valid_period : ℕ → ℕ → Bool
is_valid_period period current_year = leb property_tax_start_year period && leb period current_year

unfoldable pub is_prescription_risk : ℕ → ℕ → Bool
is_prescription_risk period current_year =
    leb_ℤ (pos period) (sub_ℕ current_year prescription_years)

-- America/Bogota is five hours behind UTC.
abbrev pub bogota_offset_ms : ℕ
bogota_offset_ms = 18000000

pub current_year_in_colombia : ℕ → ℕ
current_year_in_colombia now =
    if ltb now bogota_offset_ms then 1969 else year_of_day ((now - bogota_offset_ms) / day_ms)

-- A period is at risk exactly when it is five years old or more.
pub is_prescription_risk_iff :
    (period year : ℕ)
    → (is_prescription_risk period year ≡ true) ↔ (period + prescription_years ≤ year)
unfolding is_prescription_risk
is_prescription_risk_iff period year = ground arith

-- A later year never takes the risk away.
pub is_prescription_risk_mono :
    (period year later : ℕ)
    → is_prescription_risk period year ≡ true
    → is_prescription_risk period (year + later) ≡ true
unfolding is_prescription_risk
is_prescription_risk_mono period year later h = ground arith

-- From the start of 1970 in Colombia on, the year of an instant is the one whose January 1, at five
-- in the morning UTC, is not after it, while that of the next year is.
current_year_in_colombia_bounds :
    (now : ℕ)
    → bogota_offset_ms ≤ now
    → let year = current_year_in_colombia now in
      (day_from_year year * day_ms + bogota_offset_ms ≤ now)
      × (now < day_from_year (year + 1) * day_ms + bogota_offset_ms)
unfolding current_year_in_colombia
current_year_in_colombia_bounds now h =
    ground (arith, year_of_day_bounds ((now - bogota_offset_ms) / day_ms))

-- ===== src/TaxRoll/Missing.antt =====
-- apps/backend/src/tax-roll/missing-periods.ts. The key `${propertyId}:${period}` is the pair of
-- numbers that it is made of.
pub mod Reported
use slomp.Prelude.{
  ℕ, ◌≡◌, ◌↔◌, Bool, true, false, ◌&&◌, not, List, [], ◌∷◌, map, arith, filter, includes, nat_eq,
  pair_eq, Eq,
}

pub record CurrentPeriod : Type 0 where
  pub id : ℕ
  pub property_id : ℕ
  pub period : ℕ

pub record IncomingPeriod : Type 0 where
  pub property_id : ℕ
  pub period : ℕ

abbrev pub incoming_key : IncomingPeriod → ℕ × ℕ
incoming_key row = (row.property_id, row.period)

-- The test of the filter: the property comes, and the period does not.
abbrev pub is_missing : List IncomingPeriod → CurrentPeriod → Bool
is_missing incoming s =
    includes (map (λ row. row.property_id) incoming) s.property_id
    && not (includes (map incoming_key incoming) (s.property_id, s.period))

unfoldable pub find_missing_periods : List CurrentPeriod → List IncomingPeriod → List CurrentPeriod
find_missing_periods current incoming = filter (is_missing incoming) current

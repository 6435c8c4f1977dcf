-- ===== src/TaxRoll.antt =====
-- apps/backend/src/tax-roll: the rules of periods and the import of a tax roll.
pub mod Periods
pub mod Missing
pub mod Roll
pub mod Import
mod Tests

-- ===== src/Settlements.antt =====
-- apps/backend/src/settlements: the states of settlements and the services that change them.
pub mod Status
pub mod Rows
pub mod Change
pub mod EnFirme
mod Tests

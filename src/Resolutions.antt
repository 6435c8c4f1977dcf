-- ===== src/Resolutions.antt =====
-- apps/backend/src/resolutions, and the payment order numbers that share their format.
pub mod Numbering
pub mod Triggers
mod Tests

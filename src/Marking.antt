-- ===== src/Marking.antt =====
-- apps/frontend/src/domain/templateMarking.ts: the rules of the guided marking that the screen
-- checks before anything reaches the backend.
pub mod Fields
pub mod Pieces
pub mod Rows
pub mod Marks
pub mod Accepted
mod Tests

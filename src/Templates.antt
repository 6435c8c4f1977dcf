-- ===== src/Templates.antt =====
-- Templates of documents: the fields that they may use, and their guided marking.
pub mod Document
pub mod Catalog
pub mod Dom
pub mod Markers
pub mod Selections
pub mod Versions
mod Tests

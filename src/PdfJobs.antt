-- ===== src/PdfJobs.antt =====
-- apps/backend/src/pdf-jobs: the bulk generation of PDFs as jobs of batches.
pub mod Rules
pub mod Jobs
pub mod Reserve
mod Tests

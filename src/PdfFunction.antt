-- ===== src/PdfFunction.antt =====
-- apps/pdf-function/src: the service that turns batches of documents into PDFs.
pub mod Contract
pub mod Storage
pub mod Merge
pub mod Cache
pub mod Render
pub mod Convert
pub mod Report
pub mod Worker
pub mod Loop
mod Tests

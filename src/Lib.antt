-- ===== src/Lib.antt =====
-- SLOMP helps Colombian municipalities to collect property tax: it imports tax rolls, keeps the
-- settlements of each property and period, issues resolutions and payment orders with consecutive
-- numbers, and has their PDF files rendered in bulk.
--
-- The program's parts and their files here:
-- - Settlements.Status: the states of a settlement and who may set which
--   (apps/backend/src/settlements/settlement-status-rules.ts). PaymentOrders.Rules builds on it
--   (apps/backend/src/payment-orders/payment-order-rules.ts).
-- - Resolutions.Numbering: the counters and printed numbers of resolutions and payment orders
--   (apps/backend/src/resolutions/reserve-resolution-number.ts,
--   apps/backend/src/payment-orders/payment-order-number.ts), over the interface Counters of
--   Database.
-- - Resolutions.Triggers: which settlements start the resolutions of a bulk generation
--   (apps/backend/src/resolutions/select-generation-triggers.ts).
-- - TaxRoll.Periods and TaxRoll.Missing: the periods of a tax roll and what a new import leaves
--   out (apps/backend/src/tax-roll/period-rules.ts, missing-periods.ts).
-- - Auth.LoginAttempts: the lockout of failed logins, a map from keys to records
--   (apps/backend/src/auth/login-attempt-tracker.ts).
-- - Auth.Sessions: sessions of rotating refresh tokens, over the interface Table of Database;
--   `start`, `rotate`, `revoke` and `find_active_owner` are the methods of
--   apps/backend/src/auth/session.service.ts, with the policy of session-policy.ts. History has
--   runs of these operations in any order.
-- - Auth.Login: auth.service.ts with password-policy.ts of apps/backend/src/auth. Its state
--   joins the administrators, the tracker and the table of refresh tokens; bcrypt is the record
--   Passwords.
-- - PdfJobs: the bulk jobs of apps/backend/src/pdf-jobs. Rules is pdf-job-rules.ts; Reserve is
--   the transaction that takes numbers and issues resolutions; Jobs is what results, failures and
--   the sweep do to a job. Their state World is the rows of one municipality and year.
-- - Settlements.Rows, Change and EnFirme: the rows of settlements and audit events, changeStatus
--   and the sweep of apps/backend/src/settlements (settlements.service.ts, en-firme.service.ts,
--   group-search-results.ts) and the grouping of
--   apps/backend/src/resolutions/group-settlements-for-resolution.ts. A change reads in one state
--   of the registry and writes in a later one, since other requests may run in between.
-- - Assistant: RateLimiter, Review and Changes are assistant-rate-limiter.ts,
--   review-status-changes.ts with assistant-settlement.ts, and assistant-changes.service.ts with
--   assertChanges, of apps/backend/src/assistant. They use the rows of Settlements.Rows.
-- - Slompsim: the panel's side of the assistant. Proposal is
--   apps/frontend/src/domain/slompsim.ts and Conversation the reducer of slompsimConversation.ts
--   beside it.
-- - TaxRoll.Roll and TaxRoll.Import: apps/backend/src/tax-roll/persist-tax-roll.ts. Roll gathers
--   the rows and upserts properties and owners; Import classifies the rows by the settlements that
--   they meet and writes the new ones. Their state Registry is the tables of the import's
--   transaction.
-- - Templates: Catalog has the fields of validate-template-fields.ts, template-catalog.ts and
--   extract-template-fields.ts; Document, Dom, Markers and Selections are guided-marking.ts, in
--   which the text nodes of the file are a store shared by paragraphs, cells and rows; Versions is
--   storeVersion and activate of templates.service.ts, all of apps/backend/src/templates.
-- - Marking: the screen's side of it, apps/frontend/src/domain/templateMarking.ts. Fields has
--   names and fields, Pieces ranges and the paragraph as pieces, Rows tables and their rows, Marks
--   lists of marks, and Accepted what the checks of the screen mean for those of the server,
--   Templates.Selections.
-- - PdfFunction: the service that renders PDFs, apps/pdf-function/src. Contract is contract.ts
--   with errors.ts; Storage is storage.ts, in which each call works, fails or loses its answer;
--   Cache is templates.ts; Merge, Render and Convert are the conversion of a batch (merge.ts,
--   render.ts, soffice.ts and worker.ts); Report and Worker are the handling of a message in
--   worker.ts, Loop its startWorker with slots.ts. The state Service is the queues, the blobs and
--   the cache. The messages come from the jobs of PdfJobs, which read the results.
-- - Prelude, Database and Calendar hold what the parts share: lists, maps, results, sorting, the
--   tables and counters of the database, and the calendar of JavaScript dates.
--
-- Dates are milliseconds since 1970 as natural numbers, and the clock is an argument; an identifier
-- or a hash is a natural number; a text is a list of character codes where the code looks inside
-- it. A transaction is one step on the state. Loops are structural but for three that run on fuel:
-- `digits` on one more than the number that it prints, of which a round divides by ten;
-- `batches_from` on the length of its list, of which a round drops an item at least; and
-- `year_down`, which searches downwards from a year that is not before the one it looks for.
--
-- Not modelled: the database, the queue, the blob storage, the language model and bcrypt
-- themselves, of which the code's uses are parameters or interfaces; HTTP controllers and their
-- declarative validation; the rendering of documents, pages and components; the planning and
-- dispatch of bulk jobs; the HTTP endpoint of the PDF function, and mergeDocuments, which edits the
-- XML of a template by regular expressions and is an argument; LibreOffice, pdf-lib, docxtemplater,
-- JSON.parse and the hash function, which are arguments; the parsing of Excel files; drafts of
-- templates; the XML and ZIP libraries of templates; the search tools and the message loop of the
-- assistant; municipalities.
pub mod Prelude
pub mod Database
pub mod Calendar
pub mod Assistant
pub mod Auth
pub mod Marking
pub mod PaymentOrders
pub mod PdfFunction
pub mod PdfJobs
pub mod Resolutions
pub mod Settlements
pub mod Slompsim
pub mod TaxRoll
pub mod Templates

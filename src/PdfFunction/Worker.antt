-- ===== src/PdfFunction/Worker.antt =====
-- apps/pdf-function/src/worker.ts: what the service does with a message of its work queue. The PDFs
-- of a batch are uploaded at once, here in their order: all are tried before a failure is thrown.
-- The ZIP is written once its files were read, where the source streams them.
pub mod Queues
pub mod Delivered
pub mod LastAttempt
pub mod Uploads
pub mod Stored
use slomp.Prelude.{
  ℕ, zero, suc, ◌+◌, Bool, true, false, ◌&&◌, ◌||◌, not, Option, none, some, List, [], ◌∷◌, ◌++◌,
  map, if◌then◌else◌, ◌==◌, nat_eq, list_eq, ltb, leb, length, drop, codes, is_some, Result, ok,
  err, ℤ, pos, get_or,
}
use slomp.Prelude.Texts.{Text, starts_with}
use slomp.Prelude.Sorting.{sort_with}
use slomp.PdfFunction.Contract.{
  Json, integer, object, text, Fields, no_field, field, value_at, text_of, JobError, JobErrorCode,
  permanent, Thrown, job_error, other_error, invalid_message, pdf_storage_unavailable,
  pdf_conversion_failed, bulk_zip_incomplete, BatchDocument, RenderBatchMessage, AssembleZipMessage,
  WorkMessage, render_batch_message, assemble_zip_message, parse_work_message, parse_batch_input,
}
use slomp.PdfFunction.Storage.{
  Buffer, QueueMessage, JobResult, batch_done, zip_done, batch_failed, zip_failed, Service, Io,
  ◌>>=◌, ◌>>◌, continue, return, throw, or_throw, send_result, send_poison, delete_work, download,
  upload_blob, open_read, list_blobs,
}
use slomp.PdfFunction.Merge.{text_ltb}
use slomp.PdfFunction.Convert.{WorkerDeps, pdfs_of}
use slomp.PdfFunction.Report.{
  as_job_error, report_target, target, failure_result, publish_failure, reject,
}
use slomp.PdfFunction.Cache.{get_template}
use slomp.PdfFunction.Render.{plain_error}

abbrev pub blob_error : JobErrorCode → Text → JobError
blob_error code path = record {
  code = code;
  details = some (field "inputBlob" (text path) no_field);
}

abbrev pub found_input : Text → Option Buffer → Io Buffer
found_input path none = throw (job_error (blob_error invalid_message path))
found_input path (some raw) = return raw

abbrev pub parsed_input : Text → Option Json → Io Json
parsed_input path none = throw (job_error (blob_error invalid_message path))
parsed_input path (some json) = return json

abbrev pub before : Text → Text → Bool
before a b = not (text_ltb b a)

abbrev pub incomplete : ℕ → ℕ → JobError
incomplete expected found = record {
  code = bulk_zip_incomplete;
  details =
      some
        (field "expected" (integer (pos expected)) (field "found" (integer (pos found)) no_field));
}

abbrev pub check_count : ℕ → ℕ → Io (Unit {0})
check_count expected found =
    if expected == found then return tt else throw (job_error (incomplete expected found))

abbrev pub exhausted : ℕ → JobError
exhausted attempts = record {
  code = pdf_conversion_failed;
  details = some (field "attempts" (integer (pos attempts)) no_field);
}

abbrev pub keep_error :
    Result Thrown (Unit {0})
    → Service × Result Thrown (Unit {0})
    → Service × Result Thrown (Unit {0})
keep_error (ok _) r = r
keep_error (err e) (s, _) = (s, err e)

module _ (deps : WorkerDeps) where
  -- `Promise.all`: every upload is tried, and the first failure is thrown.
  unfoldable pub upload_all : Text → List BatchDocument → List Buffer → Io (Unit {0})
  unfolding upload_blob
  upload_all prefix (d ∷ documents) (pdf ∷ pdfs) = λ s.
      let uploaded = upload_blob deps.containers (prefix ++ d.file_name) pdf s in
      keep_error uploaded.1 (upload_all prefix documents pdfs uploaded.0)
  upload_all prefix _ _ = return tt

  unfoldable pub render_batch : RenderBatchMessage → ℕ → Io JobResult
  unfolding download get_template parse_batch_input pdfs_of upload_all
  render_batch message attempt = do
    input ← download deps.containers message.input_blob
    raw ← found_input message.input_blob input
    json ← parsed_input message.input_blob (deps.parse_json (deps.decode raw))
    documents ← or_throw (parse_batch_input json)
    template ← get_template deps.sha256 deps.max_templates deps.containers message.template_ref
    pdfs ← or_throw (pdfs_of deps template documents)
    upload_all message.output_prefix documents pdfs
    return (batch_done message.job_id message.batch_index (length documents) attempt)

  -- The entries of the archive, named by their paths under the prefix.
  unfoldable pub read_entries : Text → List Text → Io (List (Text × Buffer))
  unfolding open_read
  read_entries prefix [] = return []
  read_entries prefix (path ∷ paths) = do
    content ← open_read deps.containers path
    rest ← read_entries prefix paths
    return ((drop (length prefix) path, content) ∷ rest)

  unfoldable pub assemble_archive : AssembleZipMessage → Io JobResult
  unfolding list_blobs read_entries upload_blob
  assemble_archive message = do
    listed ← list_blobs deps.containers message.source_prefix
    let files = sort_with before listed
    check_count message.expected_files (length files)
    entries ← read_entries message.source_prefix files
    let archive = deps.zip entries
    upload_blob deps.containers message.zip_blob archive
    return (zip_done message.job_id (length archive))

  unfoldable pub process : WorkMessage → ℕ → Io JobResult
  unfolding render_batch assemble_archive
  process (render_batch_message message) attempt = render_batch message attempt
  process (assemble_zip_message message) attempt = assemble_archive message

  -- What was thrown while the message was processed.
  unfoldable pub handle_error : QueueMessage → WorkMessage → JobError → Io (Unit {0})
  unfolding permanent publish_failure
  handle_error queued message error =
      if permanent error || leb deps.max_attempts queued.dequeue_count
      then publish_failure queued message error (not (permanent error))
      else return tt

  abbrev pub settle :
      QueueMessage
      → WorkMessage
      → Service × Result Thrown JobResult
      → Service × Result Thrown (Unit {0})
  unfolding send_result delete_work handle_error as_job_error
  settle queued message (s, ok result) = (do send_result result; delete_work queued) s
  settle queued message (s, err thrown) = handle_error queued message (as_job_error thrown) s

  unfoldable pub handle_work : QueueMessage → WorkMessage → Io (Unit {0})
  unfolding publish_failure process handle_error as_job_error send_result delete_work
  handle_work queued message s =
      if ltb deps.max_attempts queued.dequeue_count
      then publish_failure queued message (exhausted queued.dequeue_count) true s
      else settle queued message (process message queued.dequeue_count s)

  abbrev pub handle_parsed :
      QueueMessage → Option Json → Result JobError WorkMessage → Io (Unit {0})
  unfolding reject handle_work
  handle_parsed queued raw (err error) = reject queued raw error
  handle_parsed queued raw (ok message) = handle_work queued message

  -- `JSON.parse` throws no `JobError`.
  unfoldable pub handle_message : QueueMessage → Io (Unit {0})
  unfolding parse_work_message reject handle_work as_job_error
  handle_message queued = elim (deps.parse_json queued.content) [
    | none ↦ reject queued none (as_job_error other_error)
    | some raw ↦ handle_parsed queued (some raw) (parse_work_message raw)
  ]

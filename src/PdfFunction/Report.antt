-- ===== src/PdfFunction/Report.antt =====
-- apps/pdf-function/src/worker.ts: how failures are reported.
use slomp.Prelude.{
  ℕ, Bool, true, false, Option, none, some, [], ◌∷◌, if◌then◌else◌, ◌==◌, nat_eq, list_eq, codes, ℤ,
  pos,
}
use slomp.Prelude.Texts.{Text}
use slomp.PdfFunction.Contract.{
  Json, integer, object, value_at, text_of, JobError, Thrown, job_error, other_error,
  pdf_storage_unavailable, WorkMessage, render_batch_message, assemble_zip_message,
}
use slomp.PdfFunction.Storage.{
  QueueMessage, JobResult, batch_failed, zip_failed, Io, ◌>>◌, return, send_result, send_poison,
  delete_work,
}
use slomp.PdfFunction.Render.{plain_error}

unfoldable pub as_job_error : Thrown → JobError
as_job_error (job_error e) = e
as_job_error other_error = plain_error pdf_storage_unavailable

-- Just enough of a message to address a failure to its job.
pub data ReportTarget : Type 0 where
  report_batch : (job_id : Text) (batch_index : ℤ) → ReportTarget
  report_zip : (job_id : Text) → ReportTarget

abbrev pub integer_of : Option Json → Option ℤ
integer_of (some (integer n)) = some n
integer_of _ = none

abbrev pub target_of : Text → Text → Option ℤ → Option ReportTarget
target_of kind job_id batch_index =
    if kind == codes "assemble-zip"
    then some (report_zip job_id)
    else if kind == codes "render-batch"
    then elim batch_index [ none ↦ none | some n ↦ some (report_batch job_id n) ]
    else none

abbrev pub target_with : Option Text → Option Text → Option ℤ → Option ReportTarget
target_with (some kind) (some []) batch_index = none
target_with (some kind) (some (c ∷ job_id)) batch_index = target_of kind (c ∷ job_id) batch_index
target_with _ _ _ = none

-- An array has none of these keys.
unfoldable pub report_target : Option Json → Option ReportTarget
report_target (some (object raw)) =
    target_with (text_of (value_at raw "type")) (text_of (value_at raw "jobId"))
      (integer_of (value_at raw "batchIndex"))
report_target _ = none

unfoldable pub failure_result : ReportTarget → JobError → ℕ → JobResult
failure_result (report_batch job_id batch_index) error attempt =
    batch_failed job_id (integer batch_index) attempt error
failure_result (report_zip job_id) error attempt = zip_failed job_id error

abbrev pub target : WorkMessage → ReportTarget
target (render_batch_message m) = report_batch m.job_id (pos m.batch_index)
target (assemble_zip_message m) = report_zip m.job_id

abbrev pub poison_if : Bool → Text → Io (Unit {0})
unfolding send_poison
poison_if true content = send_poison content
poison_if false content = return tt

unfoldable pub publish_failure : QueueMessage → WorkMessage → JobError → Bool → Io (Unit {0})
unfolding failure_result send_result send_poison delete_work
publish_failure queued message error to_poison = do
  send_result (failure_result (target message) error queued.dequeue_count)
  poison_if to_poison queued.content
  delete_work queued

abbrev pub report : Option ReportTarget → JobError → ℕ → Io (Unit {0})
unfolding failure_result send_result
report none error attempt = return tt
report (some t) error attempt = send_result (failure_result t error attempt)

-- A message that is no work message: kept in poison, and reported when its job can be told.
unfoldable pub reject : QueueMessage → Option Json → JobError → Io (Unit {0})
unfolding report_target failure_result send_result send_poison delete_work
reject queued raw error = do
  report (report_target raw) error queued.dequeue_count
  send_poison queued.content
  delete_work queued

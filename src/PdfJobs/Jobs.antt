-- ===== src/PdfJobs/Jobs.antt =====
-- apps/backend/src/pdf-jobs/pdf-jobs.service.ts: the life of a job after it was reserved. The state
-- is the rows of one municipality and year, with the messages sent to the PDF service and the blob
-- prefixes deleted. A statement changes the rows that its where clause selects; a transaction is one
-- step, and a failed send (`sends` is false) undoes it. A blob that cannot be deleted is ignored.
pub mod Results
pub mod Progress
pub mod Ended
pub mod Repeated
use slomp.Prelude.{
  ℕ, suc, ◌+◌, ◌*◌, Bool, true, false, ◌&&◌, ◌||◌, not, Option, none, some, List, [], ◌∷◌, ◌++◌,
  if◌then◌else◌, ◌==◌, nat_eq, Eq, ltb, leb, ltb_ℤ, pos, length, filter, find, includes, map,
  is_some,
}
use slomp.Database.{update_where}
use slomp.PdfJobs.Rules.{
  PdfJobStatus, preparing, running, assembling, done, failed, expired, job_status_eq,
  PdfDocumentType, liquidacion, mandamiento, active_job_statuses, batch_phase_statuses,
  counter_after_revert, minutes_after, minutes_before,
}

pub data ErrorCode : Type 0 where
  bulk_job_not_found bulk_generation_in_progress bulk_job_expired bulk_job_not_ready : ErrorCode
  bulk_job_stalled liquidation_concurrent_generation pdf_storage_unavailable : ErrorCode
  -- an error that the PDF service reported
  reported : ℕ → ErrorCode

pub record PdfJob : Type 0 where
  pub id : ℕ
  pub document_type : PdfDocumentType
  pub status : PdfJobStatus
  pub total_documents : ℕ
  pub completed_documents : ℕ
  pub sequences : Option (ℕ × ℕ)
  pub finished_at : Option ℕ
  pub expires_at : Option ℕ
  pub updated_at : ℕ
  pub error_code : Option ErrorCode

pub data BatchStatus : Type 0 where
  pending finished broken : BatchStatus

abbrev pub is_finished : BatchStatus → Bool
is_finished finished = true
is_finished _ = false

abbrev pub is_pending : BatchStatus → Bool
is_pending pending = true
is_pending _ = false

pub record Batch : Type 0 where
  pub job_id : ℕ
  pub batch_index : ℕ
  pub document_count : ℕ
  pub status : BatchStatus
  pub attempts : ℕ

-- A resolution or a payment order, with the job that issued it, if one did.
pub record Issued : Type 0 where
  pub id : ℕ
  pub sequence : ℕ
  pub pdf_job_id : Option ℕ

pub record Linked : Type 0 where
  pub id : ℕ
  pub replaced : Bool
  pub resolution_id : Option ℕ
  pub payment_order_id : Option ℕ

-- What deleteBlobs deletes of a job: all of it, its input or its rendered PDFs.
pub data Prefix : Type 0 where
  whole input pdf : ℕ → Prefix

-- An assemble-zip message is the job's id and its expected files.
pub record World : Type 0 where
  pub jobs : List PdfJob
  pub batches : List Batch
  pub resolution_counter : ℕ
  pub payment_order_counter : ℕ
  pub resolutions : List Issued
  pub payment_orders : List Issued
  pub settlements : List Linked
  pub assemble_zip : List (ℕ × ℕ)
  pub deleted_prefixes : List Prefix

abbrev pub find_job : ℕ → World → Option PdfJob
find_job job_id w = find (λ j. j.id == job_id) w.jobs

abbrev pub update_job : ℕ → (PdfJob → PdfJob) → World → World
update_job job_id f w = record w { jobs = update_where (λ j. j.id == job_id) f w.jobs }

abbrev pub delete_batches : ℕ → World → World
delete_batches job_id w = record w { batches = filter (λ b. not (b.job_id == job_id)) w.batches }

abbrev pub delete_blobs : Prefix → World → World
delete_blobs prefix w = record w { deleted_prefixes = w.deleted_prefixes ++ prefix ∷ [] }

abbrev pub is_of_job : ℕ → Issued → Bool
is_of_job job_id d = elim d.pdf_job_id [ none ↦ false | some j ↦ j == job_id ]

-- `document: { is: { pdfJobId } }`
abbrev pub is_issued_by : ℕ → List Issued → Option ℕ → Bool
is_issued_by job_id documents none = false
is_issued_by job_id documents (some d) =
    includes (map (λ x. x.id) (filter (is_of_job job_id) documents)) d

-- The counter part of revert.
abbrev pub reverted_counter : ℕ → ℕ → ℕ → ℕ
reverted_counter counter first last = elim (counter_after_revert counter first last) [
  | none ↦ counter
  | some target ↦ target
]

unfoldable pub revert_counters : PdfDocumentType → Option (ℕ × ℕ) → World → World
revert_counters type none w = w
revert_counters mandamiento (some (first, last)) w = record w {
  payment_order_counter = reverted_counter w.payment_order_counter first last;
}
revert_counters liquidacion (some (first, last)) w = record w {
  resolution_counter = reverted_counter w.resolution_counter first last;
}

abbrev pub unlink_resolutions : ℕ → World → World
unlink_resolutions job_id w = record w {
  settlements =
      update_where (λ s. is_issued_by job_id w.resolutions s.resolution_id)
        (λ s. record s { resolution_id = none }) w.settlements;
  resolutions = filter (λ d. not (is_of_job job_id d)) w.resolutions;
}

abbrev pub unlink_payment_orders : ℕ → World → World
unlink_payment_orders job_id w = record w {
  settlements =
      update_where (λ s. is_issued_by job_id w.payment_orders s.payment_order_id)
        (λ s. record s { payment_order_id = none }) w.settlements;
  payment_orders = filter (λ d. not (is_of_job job_id d)) w.payment_orders;
}

abbrev pub fail_job : ErrorCode → ℕ → PdfJob → PdfJob
fail_job error_code now j = record j {
  status = failed;
  error_code = some error_code;
  finished_at = some now;
  updated_at = now;
}

unfoldable pub revert_job : PdfJob → ErrorCode → ℕ → World → World
unfolding revert_counters counter_after_revert
revert_job job error_code now w = delete_blobs (whole job.id) (
    update_job job.id (fail_job error_code now) (
      delete_batches job.id (
        unlink_payment_orders job.id
          (unlink_resolutions job.id (revert_counters job.document_type job.sequences w)))))

unfoldable pub revert : ℕ → ErrorCode → List PdfJobStatus → ℕ → World → World
unfolding revert_job
revert job_id error_code from_statuses now w = elim (find_job job_id w) [
  | none ↦ w
  | some job ↦
      if not (includes from_statuses job.status) then w else revert_job job error_code now w
]

pub data PdfResult : Type 0 where
  batch_done : (job_id batch_index document_count attempt : ℕ) → PdfResult
  zip_done : (job_id : ℕ) → PdfResult
  batch_failed : (job_id batch_index : ℕ) (error_code : ErrorCode) → PdfResult
  zip_failed : (job_id : ℕ) (error_code : ErrorCode) → PdfResult

abbrev pub is_result_of : ℕ → ℕ → Batch → Bool
is_result_of job_id batch_index b =
    b.job_id == job_id && b.batch_index == batch_index && is_pending b.status

abbrev pub finish_batch : ℕ → Batch → Batch
finish_batch attempt b = record b { status = finished; attempts = attempt }

abbrev pub remaining : ℕ → List Batch → List Batch
remaining job_id = filter (λ b. b.job_id == job_id && not (is_finished b.status))

-- The batch is marked and its documents are counted.
abbrev pub count_batch : PdfJob → ℕ → ℕ → ℕ → ℕ → World → World
count_batch job batch_index document_count attempt now w =
    update_job job.id
      (λ j. record j {
        completed_documents = j.completed_documents + document_count;
        updated_at = now;
      })
      (record w {
        batches = update_where (is_result_of job.id batch_index) (finish_batch attempt) w.batches;
      })

-- The job passes on to assembling, and the message for the ZIP is sent.
abbrev pub assemble : PdfJob → ℕ → World → World
assemble job now w =
    let w' = update_job job.id (λ j. record j { status = assembling; updated_at = now }) w in
    record w' { assemble_zip = w'.assemble_zip ++ (job.id, job.total_documents) ∷ [] }

-- The transaction of applyResult for a batch, from the count of marked batches on.
unfoldable pub finish : PdfJob → ℕ → ℕ → ℕ → Bool → ℕ → World → World
finish job batch_index document_count attempt sends now w =
    let counted = count_batch job batch_index document_count attempt now w in
    if length (filter (is_result_of job.id batch_index) w.batches) == 0
    then w
    else if ltb 0 (length (remaining job.id counted.batches))
    then counted
    else if sends
    then assemble job now counted
    else w

unfoldable pub apply_batch : ℕ → ℕ → ℕ → ℕ → Bool → ℕ → World → World
unfolding finish
apply_batch job_id batch_index document_count attempt sends now w = elim (find_job job_id w) [
  | none ↦ w
  | some job ↦
      if not (includes batch_phase_statuses job.status)
      then w
      else finish job batch_index document_count attempt sends now w
]

abbrev pub is_assembling : ℕ → PdfJob → Bool
is_assembling job_id j = j.id == job_id && j.status == assembling

unfoldable pub apply_zip : ℕ → ℕ → ℕ → World → World
unfolding minutes_after
apply_zip zip_ttl_minutes job_id now w =
    let count = length (filter (is_assembling job_id) w.jobs) in
    let finished_job = λ (j : PdfJob). record j {
      status = done;
      finished_at = some now;
      expires_at = some (minutes_after now zip_ttl_minutes);
      updated_at = now;
    } in
    if count == 0
    then w
    else delete_blobs (pdf job_id) (
        delete_blobs (input job_id) (
          delete_batches job_id
            (record w { jobs = update_where (is_assembling job_id) finished_job w.jobs })))

unfoldable pub apply_result : ℕ → PdfResult → Bool → ℕ → World → World
unfolding revert apply_batch apply_zip
apply_result ttl (batch_failed job_id batch_index code) sends now w =
    revert job_id code batch_phase_statuses now w
apply_result ttl (zip_failed job_id code) sends now w = revert job_id code (assembling ∷ []) now w
apply_result ttl (zip_done job_id) sends now w = apply_zip ttl job_id now w
apply_result ttl (batch_done job_id batch_index document_count attempt) sends now w =
    apply_batch job_id batch_index document_count attempt sends now w

-- `for (const { id } of stalled) await this.revert(id, …)`
pub revert_all : List ℕ → List PdfJobStatus → ℕ → World → World
revert_all [] from now w = w
revert_all (id ∷ ids) from now w = revert_all ids from now (revert id bulk_job_stalled from now w)

pub recover_interrupted : ℕ → World → World
recover_interrupted now w =
    revert_all (map (λ j. j.id) (filter (λ j. j.status == preparing) w.jobs)) active_job_statuses
      now w

pub expire_all : List ℕ → ℕ → World → World
expire_all [] now w = w
expire_all (id ∷ ids) now w = expire_all ids now (
    delete_blobs (whole id)
      (update_job id (λ j. record j { status = expired; updated_at = now }) w))

abbrev pub is_over : ℕ → Option ℕ → Bool
is_over now none = false
is_over now (some at) = leb at now

abbrev pub is_stalled : ℕ → ℕ → PdfJob → Bool
is_stalled watchdog_minutes now j =
    includes (running ∷ assembling ∷ []) j.status
    && ltb_ℤ (pos j.updated_at) (minutes_before now watchdog_minutes)

pub sweep : ℕ → ℕ → World → World
sweep watchdog_minutes now w =
    let expired_ids =
      map (λ j. j.id) (filter (λ j. j.status == done && is_over now j.expires_at) w.jobs) in
    let w' = expire_all expired_ids now w in
    revert_all (map (λ j. j.id) (filter (is_stalled watchdog_minutes now) w'.jobs))
      (running ∷ assembling ∷ []) now w'

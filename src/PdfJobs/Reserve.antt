-- ===== src/PdfJobs/Reserve.antt =====
-- apps/backend/src/pdf-jobs/pdf-jobs.service.ts, reserve: the transaction that inserts a job of
-- liquidations, takes its range of numbers and issues its resolutions. The printed number is the text
-- of the year and the sequence (Resolutions.Numbering). `job_id` and `first_id` are what the database
-- assigns to the new job and to the first new resolution; the others follow.
pub mod Revert
use slomp.Prelude.{
  ℕ, zero, suc, ◌+◌, Bool, true, false, ◌&&◌, not, Option, none, some, List, [], ◌∷◌, ◌++◌, map,
  if◌then◌else◌, ◌==◌, nat_eq, Eq, length, filter, any, includes, is_some, is_none, get, Result, ok,
  err,
}
use slomp.Database.{update_where}
use slomp.PdfJobs.Rules.{PdfJobStatus, preparing, liquidacion, job_status_eq, active_job_statuses}
use slomp.PdfJobs.Jobs.{
  World, PdfJob, Issued, Linked, ErrorCode, bulk_generation_in_progress,
  liquidation_concurrent_generation,
}

-- The new resolutions, one for each pending document (a list of settlement ids).
unfoldable pub issue_from : ℕ → ℕ → ℕ → List (List ℕ) → List Issued
issue_from job_id id sequence [] = []
issue_from job_id id sequence (d ∷ ds) =
    record { id = id; sequence = sequence; pdf_job_id = some job_id }
    ∷ issue_from job_id (id + 1) (sequence + 1) ds

-- The settlement ids with the ids of their resolutions, as passed to unnest.
unfoldable pub links_from : ℕ → List (List ℕ) → List (ℕ × ℕ)
links_from id [] = []
links_from id (d ∷ ds) = map (λ s. (s, id)) d ++ links_from (id + 1) ds

-- WHERE s.id = m.sid AND s.resolutionId IS NULL AND s.replacedAt IS NULL
abbrev pub is_linkable : List (ℕ × ℕ) → Linked → Bool
is_linkable links s = is_some (get links s.id) && is_none s.resolution_id && not s.replaced

abbrev pub link : List (ℕ × ℕ) → Linked → Linked
link links s = record s { resolution_id = get links s.id }

abbrev pub new_job : ℕ → ℕ → Option (ℕ × ℕ) → ℕ → PdfJob
new_job job_id total sequences now = record {
  id = job_id;
  document_type = liquidacion;
  status = preparing;
  total_documents = total;
  completed_documents = 0;
  sequences = sequences;
  finished_at = none;
  expires_at = none;
  updated_at = now;
  error_code = none;
}

unfoldable pub reserve : ℕ → ℕ → List (List ℕ) → ℕ → ℕ → World → Result ErrorCode World
unfolding issue_from links_from
reserve job_id first_id pending total now w =
    let first : ℕ = w.resolution_counter + 1 in
    let last : ℕ = w.resolution_counter + length pending in
    let links = links_from first_id pending in
    let inserted = λ (sequences : Option (ℕ × ℕ)). record w {
      jobs = w.jobs ++ new_job job_id total sequences now ∷ [];
    } in
    if any (λ j. includes active_job_statuses j.status) w.jobs
    then err bulk_generation_in_progress
    else if length pending == 0
    then ok (inserted none)
    else if not (length (filter (is_linkable links) w.settlements) == length links)
    then err liquidation_concurrent_generation
    else ok (record (inserted (some (first, last))) {
      resolution_counter = last;
      resolutions = w.resolutions ++ issue_from job_id first_id first pending;
      settlements = update_where (is_linkable links) (link links) w.settlements;
    })

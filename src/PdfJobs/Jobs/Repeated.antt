-- ===== src/PdfJobs/Jobs/Repeated.antt =====
-- The delivery of a result that was delivered before.
use slomp.Prelude.{
  ℕ, ◌≡◌, ap, sym, subst, ◌∙◌, refl, Bool, false, some, List, [], ◌∷◌, ◌==◌, nat_eq, length, filter,
  find, includes, arith, Bool-cases, Option-cases, inl, inr, ◌⊎◌, All,
}
use slomp.Database.{update_where}
use slomp.Database.Rows.{filter-none}
use slomp.PdfJobs.Rules.{
  PdfJobStatus, done, failed, assembling, job_status_eq, batch_phase_statuses,
}
use slomp.PdfJobs.Jobs.{
  World, PdfJob, ErrorCode, PdfResult, batch_done, zip_done, batch_failed, zip_failed, find_job,
  fail_job, is_assembling, revert, revert_job, apply_zip, apply_result,
}
use slomp.PdfJobs.Jobs.Results.{find_job_id, find_job-update_job, IsUnsent, apply_batch_again}
use slomp.PdfJobs.Jobs.Ended.{jobs-revert_job}

revert_late :
    (job_id : ℕ) (code : ErrorCode) (from : List PdfJobStatus) (now : ℕ) (w : World) (job : PdfJob)
    → find_job job_id w ≡ some job
    → includes from job.status ≡ false
    → revert job_id code from now w ≡ w
unfolding revert
revert_late job_id code from now w job found late = rw (found, revert, late) refl

find_job-revert_job :
    (job_id : ℕ) (code : ErrorCode) (now : ℕ) (w : World) (job : PdfJob)
    → find_job job_id w ≡ some job
    → find_job job_id (revert_job job code now w) ≡ some (fail_job code now job)
find_job-revert_job job_id code now w job found =
    let same_id = find_job_id job_id w job found in
    subst (λ k. find_job k (revert_job job code now w) ≡ some (fail_job code now job)) same_id
      (ap (find (λ j. j.id == job.id)) (jobs-revert_job job code now w)
        ∙ find_job-update_job job.id (fail_job code now) w job (λ j. refl)
            (subst (λ k. find_job k w ≡ some job) (sym same_id) found))

revert_again :
    (job_id : ℕ) (code : ErrorCode) (from : List PdfJobStatus) (now later : ℕ) (w : World)
    → includes from failed ≡ false
    → revert job_id code from later (revert job_id code from now w) ≡ revert job_id code from now w
unfolding revert
revert_again job_id code from now later w outside = elim (Option-cases (find_job job_id w)) [
  | inl missing ↦
      let same : (n : ℕ) → revert job_id code from n w ≡ w = λ n. rw (missing, revert) refl in
      rw (same now) (same later)
  | inr (job, found) ↦ elim (Bool-cases (includes from job.status)) [
    | inr late ↦
        rw (revert_late job_id code from now w job found late)
          (revert_late job_id code from later w job found late)
    | inl active ↦
        let reverted : revert job_id code from now w ≡ revert_job job code now w =
          rw (found, revert, active) refl in
        rw reverted (
          revert_late job_id code from later (revert_job job code now w) (fail_job code now job)
            (find_job-revert_job job_id code now w job found) outside)
  ]
]

zip_unmarked :
    (ttl job_id now : ℕ) (w : World)
    → filter (is_assembling job_id) w.jobs ≡ []
    → apply_zip ttl job_id now w ≡ w
unfolding apply_zip
zip_unmarked ttl job_id now w e = rw e refl

assembled_none :
    (job_id : ℕ) (f : PdfJob → PdfJob) (jobs : List PdfJob)
    → ((j : PdfJob) → (f j).status ≡ done)
    → filter (is_assembling job_id) (update_where (is_assembling job_id) f jobs) ≡ []
assembled_none job_id f jobs ended = filter-none _ _ (all jobs)
  where
    all :
        (xs : List PdfJob)
        → All (λ j. is_assembling job_id j ≡ false) (update_where (is_assembling job_id) f xs)
    all [] = tt
    all (j ∷ xs) = (ground (arith, ended j), all xs)

apply_zip_again :
    (ttl job_id now later : ℕ) (w : World)
    → apply_zip ttl job_id later (apply_zip ttl job_id now w) ≡ apply_zip ttl job_id now w
unfolding apply_zip
apply_zip_again ttl job_id now later w =
    elim (Bool-cases (length (filter (is_assembling job_id) w.jobs) == 0)) [
      | inl no_job ↦
          let same : (n : ℕ) → apply_zip ttl job_id n w ≡ w = λ n. rw no_job refl in
          rw (same now) (same later)
      | inr some_job ↦
          zip_unmarked ttl job_id later (apply_zip ttl job_id now w)
            (rw some_job (assembled_none job_id _ w.jobs (λ j. refl)))
    ]

-- The result of a batch that was rendered.
abbrev pub IsBatchDone : PdfResult → Type 0
IsBatchDone (batch_done job_id i c a) = Unit
IsBatchDone _ = ⊥

-- A result that is delivered a second time, at whatever time and with nothing else in between,
-- changes nothing more, done or failed and of a batch or of a ZIP. The exception is a batch that is
-- done and whose first delivery changed nothing and could send no message, where the second can.
pub apply_result_again :
    (ttl : ℕ) (result : PdfResult) (sends sends' : Bool) (now later : ℕ) (w : World)
    → let w' = apply_result ttl result sends now w in
      (apply_result ttl result sends' later w' ≡ w')
      ⊎ (IsBatchDone result × IsUnsent sends sends' w w')
unfolding apply_result
apply_result_again ttl (batch_failed job_id i code) sends sends' now later w =
    inl (revert_again job_id code batch_phase_statuses now later w refl)
apply_result_again ttl (zip_failed job_id code) sends sends' now later w =
    inl (revert_again job_id code (assembling ∷ []) now later w refl)
apply_result_again ttl (zip_done job_id) sends sends' now later w =
    inl (apply_zip_again ttl job_id now later w)
apply_result_again ttl (batch_done job_id i c a) sends sends' now later w =
    elim (apply_batch_again job_id i c a sends sends' now later w) [
      | inl same ↦ inl same
      | inr unsent ↦ inr (tt, unsent)
    ]

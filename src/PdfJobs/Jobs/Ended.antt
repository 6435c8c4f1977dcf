-- ===== src/PdfJobs/Jobs/Ended.antt =====
-- A job that ended is not changed by the results that still arrive.
use slomp.Prelude.{
  ℕ, ◌≡◌, refl, sym, ap, ◌∙◌, Bool, true, false, Option, none, some, List, [], ◌∷◌, map,
  if◌then◌else◌, ◌==◌, nat_eq, length, filter, find, includes, arith, Bool-cases, Option-cases, inl,
  inr,
}
use slomp.Database.{update_where}
use slomp.Database.Rows.{find-map}
use slomp.PdfJobs.Rules.{
  PdfJobStatus, PdfDocumentType, liquidacion, mandamiento, done, failed, expired, assembling,
  job_status_eq, batch_phase_statuses,
}
use slomp.PdfJobs.Jobs.{
  World, PdfJob, ErrorCode, PdfResult, batch_done, zip_done, batch_failed, zip_failed, find_job,
  fail_job, is_assembling, revert, revert_job, revert_counters, apply_batch, apply_zip,
  apply_result,
}
use slomp.PdfJobs.Jobs.Results.{find_job_id, apply_batch_cases}
use slomp.PdfJobs.Jobs.Progress.{finish_result}

abbrev pub ended_statuses : List PdfJobStatus
ended_statuses = done ∷ failed ∷ expired ∷ []

jobs-revert_counters :
    (type : PdfDocumentType) (sequences : Option (ℕ × ℕ)) (w : World)
    → (revert_counters type sequences w).jobs ≡ w.jobs
unfolding revert_counters
jobs-revert_counters type none w = refl
jobs-revert_counters mandamiento (some (first, last)) w = refl
jobs-revert_counters liquidacion (some (first, last)) w = refl

pub jobs-revert_job :
    (job : PdfJob) (code : ErrorCode) (now : ℕ) (w : World)
    → (revert_job job code now w).jobs
      ≡ update_where (λ j. j.id == job.id) (fail_job code now) w.jobs
unfolding revert_job
jobs-revert_job job code now w =
    ap (update_where (λ j. j.id == job.id) (fail_job code now))
      (jobs-revert_counters job.document_type job.sequences w)

module _ (job : PdfJob) (ended : includes ended_statuses job.status ≡ true) where
  -- Jobs that a change leaves alone are found as before.
  kept :
      (g : PdfJob → PdfJob) (jobs : List PdfJob)
      → find (λ j. j.id == job.id) jobs ≡ some job
      → ((j : PdfJob) → (g j).id ≡ j.id)
      → g job ≡ job
      → find (λ j. j.id == job.id) (map g jobs) ≡ some job
  kept g jobs found same_id same =
      find-map (λ j. j.id == job.id) g jobs job (λ j. rw (same_id j) refl) found ∙ ap some same

  -- A job that a status test lets through is another one.
  apart_of :
      (other : PdfJob) (from : List PdfJobStatus) (job_id : ℕ) (w : World)
      → find_job job.id w ≡ some job
      → find_job job_id w ≡ some other
      → includes from other.status ≡ true
      → includes from job.status ≡ false
      → (job.id == other.id) ≡ false
  apart_of other from job_id w found found' active outside =
      elim (Bool-cases (job.id == other.id)) [
        | inr apart ↦ apart
        | inl same ↦
            let ids : job.id ≡ other.id = ground arith in
            let named = find_job_id job_id w other found' in
            let mine : some job ≡ some other =
              sym found ∙ ap (λ i. find_job i w) (ids ∙ named) ∙ found' in
            let equal : job ≡ other = cc in
            absurd (ground (arith, ap (λ j. includes from j.status) equal))
      ]

  revert-kept :
      (job_id : ℕ) (code : ErrorCode) (from : List PdfJobStatus) (now : ℕ) (w : World)
      → includes from job.status ≡ false
      → find_job job.id w ≡ some job
      → find_job job.id (revert job_id code from now w) ≡ some job
  unfolding revert
  revert-kept job_id code from now w outside found = elim (Option-cases (find_job job_id w)) [
    | inl missing ↦ rw (missing, revert) found
    | inr (other, found') ↦ elim (Bool-cases (includes from other.status)) [
      | inr late ↦ rw (found', revert, late) found
      | inl active ↦
          let apart : (job.id == other.id) ≡ false =
            apart_of other from job_id w found found' active outside in
          rw (found', revert, active)
            (ap (find (λ j. j.id == job.id)) (jobs-revert_job other code now w)
              ∙ kept (λ j. if j.id == other.id then fail_job code now j else j) w.jobs found
                  (λ j. ground arith) (rw apart refl))
    ]
  ]

  apply_batch-kept :
      (job_id i c a : ℕ) (sends : Bool) (now : ℕ) (w : World)
      → find_job job.id w ≡ some job
      → find_job job.id (apply_batch job_id i c a sends now w) ≡ some job
  apply_batch-kept job_id i c a sends now w found = elim (apply_batch_cases job_id i c a w) [
    | inl same ↦ rw (same sends now) found
    | inr (other, found', phase, run) ↦
        let apart =
          apart_of other batch_phase_statuses job_id w found found' phase (ground (arith, ended)) in
        rw (run sends now) (elim (finish_result other i c a sends now w) [
          | inl same ↦ rw same found
          | inr (marked, inl e) ↦ rw e (kept _ w.jobs found (λ j. ground arith) (rw apart refl))
          | inr (marked, inr (e, left)) ↦ rw e (
              kept _ _ (kept _ w.jobs found (λ j. ground arith) (rw apart refl)) (λ j. ground arith)
                (rw apart refl))
        ])
  ]

  apply_zip-kept :
      (ttl job_id now : ℕ) (w : World)
      → find_job job.id w ≡ some job
      → find_job job.id (apply_zip ttl job_id now w) ≡ some job
  unfolding apply_zip
  apply_zip-kept ttl job_id now w found =
      let still : is_assembling job_id job ≡ false = ground (arith, ended) in
      elim (Bool-cases (length (filter (is_assembling job_id) w.jobs) == 0)) [
        | inl no_job ↦ rw no_job found
        | inr some_job ↦ rw some_job (kept _ w.jobs found (λ j. ground arith) (rw still refl))
      ]

  -- A job that is done, failed or expired is the same after any result that still arrives.
  pub apply_result-ended :
      (ttl : ℕ) (result : PdfResult) (sends : Bool) (now : ℕ) (w : World)
      → find_job job.id w ≡ some job
      → find_job job.id (apply_result ttl result sends now w) ≡ some job
  unfolding apply_result
  apply_result-ended ttl (batch_failed job_id i code) sends now w found =
      revert-kept job_id code batch_phase_statuses now w (ground (arith, ended)) found
  apply_result-ended ttl (zip_failed job_id code) sends now w found =
      revert-kept job_id code (assembling ∷ []) now w (ground (arith, ended)) found
  apply_result-ended ttl (zip_done job_id) sends now w found = apply_zip-kept ttl job_id now w found
  apply_result-ended ttl (batch_done job_id i c a) sends now w found =
      apply_batch-kept job_id i c a sends now w found

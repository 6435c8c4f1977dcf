-- ===== src/PdfJobs/Jobs/Progress.antt =====
-- The documents of a job are counted right, and the ZIP is assembled only when none is missing.
use slomp.Prelude.{
  ℕ, ◌+◌, ◌≤◌, ◌≡◌, ◌≢◌, refl, sym, subst, Bool, true, ◌&&◌, Option, none, some, List, [], ◌∷◌,
  if◌then◌else◌, ◌==◌, nat_eq, ltb, length, filter, includes, arith, Bool-cases, inl, inr, ◌⊎◌, All,
}
use slomp.Database.{update_where}
use slomp.PdfJobs.Rules.{assembling, job_status_eq, batch_phase_statuses}
use slomp.PdfJobs.Jobs.{
  World, PdfJob, Batch, is_finished, find_job, is_result_of, finish_batch, remaining, finish,
  apply_batch, count_batch, assemble,
}
use slomp.PdfJobs.Jobs.Results.{find_job_id, find_job-update_job, apply_batch_cases}

abbrev pub AllSome {κ} : {A : Type 0} → (A → Type κ) → Option A → Type κ
AllSome P none = Unit
AllSome P (some a) = P a

-- The documents of the finished batches of a job, and of some batches.
unfoldable pub finished_documents : ℕ → List Batch → ℕ
finished_documents job_id [] = 0
finished_documents job_id (b ∷ bs) =
    (if b.job_id == job_id && is_finished b.status then b.document_count else 0)
    + finished_documents job_id bs

documents : List Batch → ℕ
documents [] = 0
documents (b ∷ bs) = b.document_count + documents bs

finished_documents-finish_batch :
    (job_id i a : ℕ) (bs : List Batch)
    → finished_documents job_id (update_where (is_result_of job_id i) (finish_batch a) bs)
      ≡ finished_documents job_id bs + documents (filter (is_result_of job_id i) bs)
unfolding finished_documents documents
finished_documents-finish_batch job_id i a [] = refl
finished_documents-finish_batch job_id i a (b ∷ bs) =
    ground (arith, finished_documents-finish_batch job_id i a bs)

documents-one :
    (c : ℕ) (bs : List Batch)
    → All (λ b. b.document_count ≡ c) bs
    → length bs ≤ 1
    → length bs ≢ 0
    → documents bs ≡ c
unfolding documents
documents-one c [] h one marked = absurd (marked refl)
documents-one c (b ∷ []) (h, hs) one marked = omega arith
documents-one c (b ∷ b' ∷ bs) h one marked = absurd (omega arith)

-- The count of a job is that of its finished batches, and no batch is left once it assembles.
abbrev pub IsTrackedJob : List Batch → PdfJob → Type 0
IsTrackedJob bs j =
    (j.completed_documents ≡ finished_documents j.id bs)
    × ((j.status ≢ assembling) ⊎ (remaining j.id bs ≡ []))

-- The job of that id, if there is one, is tracked.
abbrev pub IsTracked : ℕ → World → Type 0
IsTracked job_id w = AllSome (IsTrackedJob w.batches) (find_job job_id w)

-- The result speaks of a batch of the plan: there is one such batch at most, and the documents
-- that the PDF service counted are those that were planned.
pub record IsPlanned (job_id i c : ℕ) (bs : List Batch) : Type 0 where
  pub unique : length (filter (is_result_of job_id i) bs) ≤ 1
  pub planned : All (λ b. b.document_count ≡ c) (filter (is_result_of job_id i) bs)

length-zero : {A : Type 0} (xs : List A) → length xs ≡ 0 → xs ≡ []
length-zero [] h = refl
length-zero (x ∷ xs) h = absurd (omega arith)

-- What `finish` does: nothing, or a batch is counted, or it was the last one.
pub finish_result :
    (job : PdfJob) (i c a : ℕ) (sends : Bool) (now : ℕ) (w : World)
    → (finish job i c a sends now w ≡ w)
      ⊎ ((length (filter (is_result_of job.id i) w.batches) ≢ 0)
          × ((finish job i c a sends now w ≡ count_batch job i c a now w)
              ⊎ ((finish job i c a sends now w ≡ assemble job now (count_batch job i c a now w))
                  × (remaining job.id (count_batch job i c a now w).batches ≡ []))))
unfolding finish
finish_result job i c a sends now w =
    elim (Bool-cases (length (filter (is_result_of job.id i) w.batches) == 0)) [
      | inl unmarked ↦ inl (rw unmarked refl)
      | inr marked ↦
          elim (Bool-cases
            (ltb 0 (length (remaining job.id (count_batch job i c a now w).batches)))) [
              | inl more ↦ inr (ground (arith, marked), inl (rw (marked, more) refl))
              | inr last ↦ elim (Bool-cases sends) [
                | inr lost ↦ inl (rw (marked, last, lost) refl)
                | inl sent ↦ inr (
                  ground (arith, marked),
                  inr (rw (marked, last, sent) refl, length-zero _ (ground (arith, last))),
                )
              ]
            ]
    ]

module _ (job : PdfJob) (i c a now : ℕ) (w : World) (found : find_job job.id w ≡ some job)
    (planned : IsPlanned job.id i c w.batches) (tracked : IsTracked job.id w) where
  counted_job :
      find_job job.id (count_batch job i c a now w)
      ≡ some (record job { completed_documents = job.completed_documents + c; updated_at = now })
  counted_job =
      find_job-update_job job.id
        (λ j. record j { completed_documents = j.completed_documents + c; updated_at = now })
        (record w { batches = update_where (is_result_of job.id i) (finish_batch a) w.batches }) job
        (λ x. refl) found

  is_tracked : IsTrackedJob w.batches job
  is_tracked = subst (AllSome (IsTrackedJob w.batches)) found tracked

  counted_documents :
      length (filter (is_result_of job.id i) w.batches) ≢ 0
      → job.completed_documents + c
        ≡ finished_documents job.id (count_batch job i c a now w).batches
  counted_documents marked = ground (
    arith,
    finished_documents-finish_batch job.id i a w.batches,
    documents-one c (filter (is_result_of job.id i) w.batches) planned.planned planned.unique
        marked,
    is_tracked.0,
  )

  count_batch-IsTracked :
      length (filter (is_result_of job.id i) w.batches) ≢ 0
      → includes batch_phase_statuses job.status ≡ true
      → IsTracked job.id (count_batch job i c a now w)
  count_batch-IsTracked marked phase =
      rw counted_job (counted_documents marked, inl (λ s. absurd (ground (arith, phase))))

  assemble-IsTracked :
      length (filter (is_result_of job.id i) w.batches) ≢ 0
      → remaining job.id (count_batch job i c a now w).batches ≡ []
      → IsTracked job.id (assemble job now (count_batch job i c a now w))
  assemble-IsTracked marked none_left =
      let e =
        find_job-update_job job.id (λ j. record j { status = assembling; updated_at = now })
          (count_batch job i c a now w) _ (λ x. refl) counted_job in
      rw e (counted_documents marked, inr none_left)

-- The result of a batch that is planned at most once, with the document count that was planned,
-- keeps a job tracked: its count of completed documents is that of its finished batches, and it is
-- assembling only when none of its batches is left.
pub apply_batch-IsTracked :
    (job_id i c a : ℕ) (sends : Bool) (now : ℕ) (w : World)
    → IsPlanned job_id i c w.batches
    → IsTracked job_id w
    → IsTracked job_id (apply_batch job_id i c a sends now w)
apply_batch-IsTracked job_id i c a sends now w planned tracked =
    elim (apply_batch_cases job_id i c a w) [
      | inl same ↦ rw (same sends now) tracked
      | inr (job, found, phase, run) ↦
          let same_id = find_job_id job_id w job found in
          let found' = subst (λ k. find_job k w ≡ some job) (sym same_id) found in
          rw (run sends now, ← same_id)
            (elim (finish_result job i c a sends now w) [
              | inl same ↦ rw same (rw same_id tracked)
              | inr (marked, inl e) ↦ rw e (
                  count_batch-IsTracked job i c a now w found' (rw same_id planned)
                    (rw same_id tracked) marked phase)
              | inr (marked, inr (e, left)) ↦ rw e (
                  assemble-IsTracked job i c a now w found' (rw same_id planned)
                    (rw same_id tracked) marked left)
            ])
    ]

-- ===== src/PdfJobs/Jobs/Results.antt =====
-- Results of batches: which of them change nothing.
use slomp.Prelude.{
  ℕ, ◌≡◌, refl, ap, ◌∙◌, sym, subst, Bool, true, false, some, List, [], ◌∷◌, if◌then◌else◌, ◌==◌,
  nat_eq, nat_beq_iff, ltb, length, filter, includes, arith, Bool-cases, Option-cases, inl, inr,
  ◌⊎◌, All,
}
use slomp.Database.{update_where}
use slomp.Database.Rows.{find-map, find_test, filter-none}
use slomp.PdfJobs.Rules.{job_status_eq, batch_phase_statuses}
use slomp.PdfJobs.Jobs.{
  World, PdfJob, Batch, find_job, update_job, is_result_of, finish_batch, remaining, finish,
  apply_batch,
}

pub find_job_id : (job_id : ℕ) (w : World) (j : PdfJob) → find_job job_id w ≡ some j → j.id ≡ job_id
find_job_id job_id w j e = (nat_beq_iff j.id job_id).0 (find_test (λ x. x.id == job_id) w.jobs j e)

-- A change of the job that keeps its id is found.
pub find_job-update_job :
    (job_id : ℕ) (f : PdfJob → PdfJob) (w : World) (j : PdfJob)
    → ((x : PdfJob) → (f x).id ≡ x.id)
    → find_job job_id w ≡ some j
    → find_job job_id (update_job job_id f w) ≡ some (f j)
find_job-update_job job_id f w j same e =
    find-map (λ x. x.id == job_id) (λ x. if x.id == job_id then f x else x) w.jobs j
      (λ x. ground (arith, same x)) e
    ∙ ap some (ground (arith, find_job_id job_id w j e))

marked_none :
    (job_id batch_index attempt : ℕ) (bs : List Batch)
    → filter
        (is_result_of job_id batch_index)
        (update_where (is_result_of job_id batch_index) (finish_batch attempt) bs)
      ≡ []
marked_none job_id batch_index attempt bs = filter-none _ _ (all bs)
  where
    all :
        (xs : List Batch)
        → All
            (λ b. is_result_of job_id batch_index b ≡ false)
            (update_where (is_result_of job_id batch_index) (finish_batch attempt) xs)
    all [] = tt
    all (b ∷ xs) = (ground arith, all xs)

-- A result that finds no pending batch of its index changes nothing.
finish_unmarked :
    (job : PdfJob) (i c a : ℕ) (sends : Bool) (now : ℕ) (w : World)
    → filter (is_result_of job.id i) w.batches ≡ []
    → finish job i c a sends now w ≡ w
unfolding finish
finish_unmarked job i c a sends now w e = rw e refl

apply_batch_unmarked :
    (job_id i c a : ℕ) (sends : Bool) (now : ℕ) (w : World)
    → filter (is_result_of job_id i) w.batches ≡ []
    → apply_batch job_id i c a sends now w ≡ w
unfolding apply_batch
apply_batch_unmarked job_id i c a sends now w e = elim (Option-cases (find_job job_id w)) [
  | inl missing ↦ rw (missing, apply_batch) refl
  | inr (job, found) ↦
      rw (found, apply_batch)
        (elim (Bool-cases (includes batch_phase_statuses job.status)) [
          | inl phase ↦ rw phase (
              finish_unmarked job i c a sends now w (
                subst (λ k. filter (is_result_of k i) w.batches ≡ [])
                  (sym (find_job_id job_id w job found)) e))
          | inr late ↦ rw late refl
        ])
]

-- No pending batch has the index, or the batch is marked, or it was the last one and the message for
-- the ZIP could not be sent.
finish_cases :
    (job : PdfJob) (i c a : ℕ) (sends : Bool) (now : ℕ) (w : World)
    → (filter (is_result_of job.id i) w.batches ≡ [])
      ⊎ (((finish job i c a sends now w).batches
            ≡ update_where (is_result_of job.id i) (finish_batch a) w.batches)
          ⊎ ((sends ≡ false) × ((n : ℕ) → finish job i c a false n w ≡ w)))
unfolding finish
finish_cases job i c a sends now w =
    elim (Bool-cases (length (filter (is_result_of job.id i) w.batches) == 0)) [
      | inl none_marked ↦ inl (length-zero _ (ground arith))
      | inr marked ↦
          elim (Bool-cases (
            ltb 0 (
              length (
                remaining job.id
                  (update_where (is_result_of job.id i) (finish_batch a) w.batches))))) [
                    | inl more ↦ inr (inl (rw (marked, more) refl))
                    | inr last ↦ inr (assemble sends marked last)
                  ]
    ]
  where
    length-zero : {A : Type 0} (xs : List A) → length xs ≡ 0 → xs ≡ []
    length-zero [] h = refl
    length-zero (x ∷ xs) h = absurd (omega arith)

    assemble :
        (b : Bool)
        → (length (filter (is_result_of job.id i) w.batches) == 0) ≡ false
        → ltb 0 (
            length
              (remaining job.id (update_where (is_result_of job.id i) (finish_batch a) w.batches)))
          ≡ false
        → ((finish job i c a b now w).batches
            ≡ update_where (is_result_of job.id i) (finish_batch a) w.batches)
          ⊎ ((b ≡ false) × ((n : ℕ) → finish job i c a false n w ≡ w))
    assemble true marked last = inl (rw (marked, last) refl)
    assemble false marked last = inr (refl, λ n. rw (marked, last) refl)

-- The two ways through apply_batch: nothing changes, or the job is in its batch phase.
pub apply_batch_cases :
    (job_id i c a : ℕ) (w : World)
    → ((b : Bool) (n : ℕ) → apply_batch job_id i c a b n w ≡ w)
      ⊎ ((job : PdfJob) × (find_job job_id w ≡ some job)
          × (includes batch_phase_statuses job.status ≡ true)
          × ((b : Bool) (n : ℕ) → apply_batch job_id i c a b n w ≡ finish job i c a b n w))
unfolding apply_batch
apply_batch_cases job_id i c a w = elim (Option-cases (find_job job_id w)) [
  | inl missing ↦ inl (λ b n. rw (missing, apply_batch) refl)
  | inr (job, found) ↦ elim (Bool-cases (includes batch_phase_statuses job.status)) [
    | inr late ↦ inl (λ b n. rw (found, apply_batch, late) refl)
    | inl phase ↦ inr (job, found, phase, λ b n. rw (found, apply_batch, phase) refl)
  ]
]

-- The first delivery of a result changed nothing, since the send failed, and the second one sends.
abbrev pub IsUnsent : Bool → Bool → World → World → Type 0
IsUnsent sends sends' w w' = (w' ≡ w) × (sends ≡ false) × (sends' ≡ true)

pub apply_batch_again :
    (job_id i c a : ℕ) (sends sends' : Bool) (now later : ℕ) (w : World)
    → let w' = apply_batch job_id i c a sends now w in
      (apply_batch job_id i c a sends' later w' ≡ w') ⊎ IsUnsent sends sends' w w'
apply_batch_again job_id i c a sends sends' now later w = elim (apply_batch_cases job_id i c a w) [
  | inl same ↦ inl (rw (same sends now) (same sends' later))
  | inr (job, found, phase, run) ↦ elim (finish_cases job i c a sends now w) [
    | inl unmarked ↦ inl (
        rw (run sends now, finish_unmarked job i c a sends now w unmarked)
          (run sends' later ∙ finish_unmarked job i c a sends' later w unmarked))
    | inr (inl marked) ↦ inl (
        apply_batch_unmarked job_id i c a sends' later _ (
          rw (run sends now, marked, find_job_id job_id w job found)
            (marked_none job_id i a w.batches)))
    | inr (inr (unsent, same)) ↦
        let first : apply_batch job_id i c a sends now w ≡ w =
          run sends now ∙ rw unsent (same now) in
        elim (Bool-cases sends') [
          | inl sent ↦ inr (first, unsent, sent)
          | inr again ↦ inl (rw (first, again) (run false later ∙ same later))
        ]
  ]
]

-- ===== src/PdfJobs/Tests.antt =====
-- Jobs at concrete inputs: a job of two documents in two batches, and a reservation that fails.
use slomp.Prelude.{ℕ, ◌≡◌, refl, true, false, none, some, [], ◌∷◌, arith, ok, inl, ◌⊎◌}
use slomp.PdfJobs.Rules.{preparing, running, done, liquidacion, active_job_statuses}
use slomp.PdfJobs.Jobs.{
  World, PdfJob, Batch, Issued, Linked, pending, finished, bulk_job_stalled, apply_batch, revert,
  apply_result, batch_done, find_job,
}
use slomp.PdfJobs.Jobs.Results.{IsUnsent}
use slomp.PdfJobs.Jobs.Repeated.{IsBatchDone, apply_result_again}
use slomp.PdfJobs.Jobs.Progress.{IsTracked, finished_documents, apply_batch-IsTracked}
use slomp.PdfJobs.Jobs.Ended.{apply_result-ended}
use slomp.PdfJobs.Reserve.{reserve, issue_from, links_from}
use slomp.PdfJobs.Reserve.Revert.{IsRestored, revert-reserve}

abbrev running_job : PdfJob
running_job = record {
  id = 4;
  document_type = liquidacion;
  status = running;
  total_documents = 5;
  completed_documents = 3;
  sequences = some (8, 12);
  finished_at = none;
  expires_at = none;
  updated_at = 100;
  error_code = none;
}

abbrev first_batch : Batch
first_batch = record {
  job_id = 4;
  batch_index = 0;
  document_count = 3;
  status = finished;
  attempts = 1;
}

abbrev last_batch : Batch
last_batch = record {
  job_id = 4;
  batch_index = 1;
  document_count = 2;
  status = pending;
  attempts = 0;
}

abbrev busy_world : World
busy_world = record {
  jobs = running_job ∷ [];
  batches = first_batch ∷ last_batch ∷ [];
  resolution_counter = 12;
  payment_order_counter = 0;
  resolutions = [];
  payment_orders = [];
  settlements = [];
  assemble_zip = [];
  deleted_prefixes = [];
}

apply_result_again_example :
    let counted = apply_result 60 (batch_done 4 1 2 1) true 200 busy_world in
    (apply_result 60 (batch_done 4 1 2 1) true 300 counted ≡ counted)
    ⊎ (IsBatchDone (batch_done 4 1 2 1) × IsUnsent true true busy_world counted)
apply_result_again_example = apply_result_again 60 (batch_done 4 1 2 1) true true 200 300 busy_world

apply_batch-IsTracked_example : IsTracked 4 (apply_batch 4 1 2 1 true 200 busy_world)
unfolding finished_documents
apply_batch-IsTracked_example =
    apply_batch-IsTracked 4 1 2 1 true 200 busy_world
      (record { unique = omega arith; planned = (refl, tt) }) (refl, inl (λ e. cc))

abbrev owed : ℕ → Linked
owed id = record { id = id; replaced = false; resolution_id = none; payment_order_id = none }

abbrev old_resolution : Issued
old_resolution = record { id = 30; sequence = 7; pdf_job_id = none }

abbrev idle_world : World
idle_world = record {
  jobs = record running_job { id = 3; status = done } ∷ [];
  batches = [];
  resolution_counter = 7;
  payment_order_counter = 0;
  resolutions = old_resolution ∷ [];
  payment_orders = [];
  settlements = record (owed 1) { resolution_id = some 30 } ∷ owed 2 ∷ owed 3 ∷ owed 5 ∷ [];
  assemble_zip = [];
  deleted_prefixes = [];
}

abbrev prepared_world : World
prepared_world = record idle_world {
  jobs =
      record running_job { id = 3; status = done }
      ∷ record running_job {
        status = preparing;
        total_documents = 2;
        completed_documents = 0;
        sequences = some (8, 9);
      }
      ∷ [];
  resolution_counter = 9;
  resolutions =
      old_resolution
      ∷ record { id = 31; sequence = 8; pdf_job_id = some 4 }
      ∷ record { id = 32; sequence = 9; pdf_job_id = some 4 }
      ∷ [];
  settlements =
      record (owed 1) { resolution_id = some 30 }
      ∷ record (owed 2) { resolution_id = some 31 }
      ∷ record (owed 3) { resolution_id = some 31 }
      ∷ record (owed 5) { resolution_id = some 32 }
      ∷ [];
}

prepared : reserve 4 31 ((2 ∷ 3 ∷ []) ∷ (5 ∷ []) ∷ []) 2 100 idle_world ≡ ok prepared_world
unfolding reserve issue_from links_from
prepared = refl

revert-reserve_example :
    IsRestored idle_world (revert 4 bulk_job_stalled active_job_statuses 200 prepared_world)
revert-reserve_example =
    revert-reserve 4 31 2 100 200 ((2 ∷ 3 ∷ []) ∷ (5 ∷ []) ∷ []) bulk_job_stalled idle_world
      prepared_world
      (record {
        job = (refl, tt);
        resolutions = (refl, tt);
        payment_orders = tt;
        links = (refl, (refl, (refl, (refl, tt))));
      })
      prepared

abbrev done_job : PdfJob
done_job = record running_job { id = 3; status = done }

apply_result-ended_example :
    find_job 3 (apply_result 60 (batch_done 3 1 2 2) true 300 idle_world) ≡ some done_job
apply_result-ended_example =
    apply_result-ended done_job refl 60 (batch_done 3 1 2 2) true 300 idle_world refl

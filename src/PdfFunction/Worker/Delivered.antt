-- ===== src/PdfFunction/Worker/Delivered.antt =====
-- When a handled message leaves the work queue.
use slomp.Prelude.{
  ℕ, Bool, true, false, ◌||◌, not, Option, none, some, [], ◌∷◌, ◌++◌, nat_eq, list_eq, ltb, leb,
  length, Result, ok, err, ◌≡◌, refl, ap, ◌∙◌, ◌⊎◌, inl, inr, Bool-cases, Option-cases, subst,
  arith, drop,
}
use slomp.Prelude.Texts.{Text}
use slomp.PdfFunction.Contract.{
  Json, JobError, permanent, Thrown, other_error, WorkMessage, render_batch_message,
  assemble_zip_message, parse_work_message, parse_batch_input,
}
use slomp.PdfFunction.Storage.{
  Fault-cases, QueueMessage, JobResult, batch_done, zip_done, batch_failed, zip_failed, Service, Io,
  ◌>>=◌, ◌>>◌, continue, return, next_fault, send_result, send_poison, delete_work, without,
  download, upload_blob, list_blobs, or_throw,
}
use slomp.PdfFunction.Cache.{get_template}
use slomp.Prelude.Sorting.{sort_with}
use slomp.PdfFunction.Convert.{WorkerDeps, pdfs_of}
use slomp.PdfFunction.Report.{
  as_job_error, ReportTarget, report_target, target, failure_result, publish_failure, reject,
  poison_if, report,
}
use slomp.PdfFunction.Worker.{
  handle_message, found_input, parsed_input, upload_all, check_count, read_entries, before,
  render_batch, assemble_archive, handle_work, handle_parsed, settle, handle_error, process,
  exhausted,
}
use slomp.PdfFunction.Worker.Queues.{SameQueues, process-KeepsQueues}

abbrev pub job_of : JobResult → Text
job_of (batch_done job_id _ _ _) = job_id
job_of (zip_done job_id _) = job_id
job_of (batch_failed job_id _ _ _) = job_id
job_of (zip_failed job_id _) = job_id

abbrev pub job_of_message : WorkMessage → Text
job_of_message (render_batch_message m) = m.job_id
job_of_message (assemble_zip_message m) = m.job_id

-- The work message that the queue's text holds, where it holds one.
abbrev pub message_in : Option Json → Option WorkMessage
unfolding parse_work_message
message_in none = none
message_in (some raw) = elim (parse_work_message raw) [ err _ ↦ none | ok m ↦ some m ]

abbrev pub IsReported : Option WorkMessage → QueueMessage → Service → Service → Type 0
IsReported none queued s t = t.poison ≡ s.poison ++ queued.content ∷ []
IsReported (some message) queued s t =
    (r : JobResult) × (job_of r ≡ job_of_message message) × (t.results ≡ s.results ++ r ∷ [])

-- The message is still in the queue, or it is deleted and reported.
abbrev pub IsDelivered : Option WorkMessage → QueueMessage → Service → Service → Type 0
IsDelivered message queued s t =
    (t.work ≡ s.work) ⊎ ((t.work ≡ without queued s.work) × IsReported message queued s t)

abbrev called : Service → Service
called s = record s { faults = drop 1 s.faults }

abbrev with_poison : Text → Service → Service
with_poison content s = record s { poison = s.poison ++ content ∷ [] }

abbrev with_result : JobResult → Service → Service
with_result r s = record s { results = s.results ++ r ∷ [] }

module _ (queued : QueueMessage) where
  -- After the result is sent, and for some errors the poison: the message is deleted, or it stays.
  deleted :
      (s : Service)
      → let t = (delete_work queued s).0 in
        ((t.work ≡ s.work) ⊎ (t.work ≡ without queued s.work))
        × (t.results ≡ s.results)
        × (t.poison ≡ s.poison)
  unfolding delete_work
  deleted s = elim (Fault-cases (next_fault s.faults)) [
    | inl e ↦ rw e (inr refl, refl, refl)
    | inr (inl e) ↦ rw e (inl refl, refl, refl)
    | inr (inr e) ↦ rw e (inr refl, refl, refl)
  ]

  poisoned :
      (to_poison : Bool) (s : Service)
      → let t =
          (continue
            (λ (_ : Unit {0}). delete_work queued)
            (poison_if to_poison queued.content s)).0 in
        ((t.work ≡ s.work) ⊎ (t.work ≡ without queued s.work)) × (t.results ≡ s.results)
  unfolding send_poison
  poisoned false s = let (d, r, p) = deleted s in (d, r)
  poisoned true s = elim (Fault-cases (next_fault s.faults)) [
    | inl e ↦ rw e (let (d, r, p) = deleted (with_poison queued.content (called s)) in (d, r))
    | inr (inl e) ↦ rw e (inl refl, refl)
    | inr (inr e) ↦ rw e (inl refl, refl)
  ]

  IsDelivered-of_result :
      (message : WorkMessage) (r : JobResult) (to_poison : Bool) (s : Service)
      → job_of r ≡ job_of_message message
      → IsDelivered
          (some message)
          queued
          s
          ((do send_result r; poison_if to_poison queued.content; delete_work queued) s).0
  unfolding send_result
  IsDelivered-of_result message r to_poison s same = elim (Fault-cases (next_fault s.faults)) [
    | inl e ↦ rw e (
        let (d, k) = poisoned to_poison (with_result r (called s)) in
        elim d [ inl stays ↦ inl stays | inr gone ↦ inr (gone, (r, same, k)) ])
    | inr (inl e) ↦ rw e (inl refl)
    | inr (inr e) ↦ rw e (inl refl)
  ]

  IsDelivered-of_poison :
      (s : Service)
      → IsDelivered none queued s ((do send_poison queued.content; delete_work queued) s).0
  unfolding send_poison
  IsDelivered-of_poison s = elim (Fault-cases (next_fault s.faults)) [
    | inl e ↦ rw e (
        let (d, k, p) = deleted (with_poison queued.content (called s)) in
        elim d [ inl stays ↦ inl stays | inr gone ↦ inr (gone, p) ])
    | inr (inl e) ↦ rw e (inl refl)
    | inr (inr e) ↦ rw e (inl refl)
  ]

  IsDelivered-report :
      (t : Option ReportTarget) (error : JobError) (s : Service)
      → IsDelivered none queued s
          ((do report t error queued.dequeue_count; send_poison queued.content; delete_work queued)
            s).0
  unfolding send_result failure_result
  IsDelivered-report none error s = IsDelivered-of_poison s
  IsDelivered-report (some t) error s = elim (Fault-cases (next_fault s.faults)) [
    | inl e ↦ rw e (
        IsDelivered-of_poison
          (with_result (failure_result t error queued.dequeue_count) (called s)))
    | inr (inl e) ↦ rw e (inl refl)
    | inr (inr e) ↦ rw e (inl refl)
  ]

pub job_of-failure :
    (message : WorkMessage) (error : JobError) (attempt : ℕ)
    → job_of (failure_result (target message) error attempt) ≡ job_of_message message
unfolding failure_result
job_of-failure (render_batch_message m) error attempt = refl
job_of-failure (assemble_zip_message m) error attempt = refl

IsDelivered-SameQueues :
    (message : Option WorkMessage) (queued : QueueMessage) (s t u : Service)
    → SameQueues s t
    → IsDelivered message queued t u
    → IsDelivered message queued s u
IsDelivered-SameQueues message queued s t u (a, b, c, d) (inl h) = inl (h ∙ a)
IsDelivered-SameQueues none queued s t u (a, b, c, d) (inr (h, k)) =
    inr (h ∙ ap (without queued) a, k ∙ ap (λ p. p ++ queued.content ∷ []) c)
IsDelivered-SameQueues (some m) queued s t u (a, b, c, d) (inr (h, (r, j, k))) =
    inr (h ∙ ap (without queued) a, (r, j, k ∙ ap (λ q. q ++ r ∷ []) b))

abbrev same_result : {A : Type 0} → A → Result Thrown A
same_result a = ok a

pub ok_inj : {A : Type 0} (a b : A) → same_result a ≡ same_result b → a ≡ b
ok_inj a b h = ground (arith, h)

-- What a computation gives, where it throws nothing, satisfies `P`.
pub record Gives {A : Type 0} (P : A → Type 0) (m : Io A) : Type 0 where
  pub gives : (s : Service) (a : A) → (m s).1 ≡ ok a → P a

module _ {A B : Type 0} (P : B → Type 0) where
  continue-Gives :
      (f : A → Io B)
      → ((a : A) → Gives P (f a))
      → (r : Service × Result Thrown A) → (b : B) → (continue f r).1 ≡ ok b
      → P b
  continue-Gives f k (s, ok a) b h = (k a).gives s b h
  continue-Gives f k (s, err e) b h = absurd (ground arith)

  bind-Gives : (m : Io A) (f : A → Io B) → ((a : A) → Gives P (f a)) → Gives P (m >>= f)
  bind-Gives m f k = record { gives = λ s b h. continue-Gives f k (m s) b h }

return-Gives : {A : Type 0} (P : A → Type 0) (a : A) → P a → Gives P (return a)
return-Gives P a p = record { gives = λ s b h. subst P (ok_inj a b h) p }

abbrev pub IsOf : WorkMessage → JobResult → Type 0
IsOf message r = job_of r ≡ job_of_message message

module _ (deps : WorkerDeps) where
  pub process-Gives :
      (message : WorkMessage) (attempt : ℕ) → Gives (IsOf message) (process deps message attempt)
  unfolding process render_batch assemble_archive
  process-Gives (render_batch_message m) attempt =
      let P = IsOf (render_batch_message m) in
      bind-Gives P (download deps.containers m.input_blob) _ (λ input.
        bind-Gives P (found_input m.input_blob input) _ (λ raw.
          bind-Gives P (parsed_input m.input_blob (deps.parse_json (deps.decode raw))) _ (λ json.
            bind-Gives P (or_throw (parse_batch_input json)) _ (λ documents.
              bind-Gives P
                (get_template deps.sha256 deps.max_templates deps.containers m.template_ref) _
                (λ template. bind-Gives P (or_throw (pdfs_of deps template documents)) _ (λ pdfs.
                  bind-Gives P (upload_all deps m.output_prefix documents pdfs) _ (λ _.
                    return-Gives P (batch_done m.job_id m.batch_index (length documents) attempt)
                      refl)))))))
  process-Gives (assemble_zip_message m) attempt =
      let P = IsOf (assemble_zip_message m) in
      bind-Gives P (list_blobs deps.containers m.source_prefix) _ (λ listed.
        bind-Gives P (check_count m.expected_files (length (sort_with before listed))) _ (λ _.
          bind-Gives P (read_entries deps m.source_prefix (sort_with before listed)) _ (λ entries.
            bind-Gives P (upload_blob deps.containers m.zip_blob (deps.zip entries)) _
              (λ _. return-Gives P (zip_done m.job_id (length (deps.zip entries))) refl))))

  IsDelivered-handle_error :
      (queued : QueueMessage) (message : WorkMessage) (error : JobError) (s : Service)
      → IsDelivered (some message) queued s (handle_error deps queued message error s).0
  unfolding handle_error publish_failure
  IsDelivered-handle_error queued message error s =
      elim (Bool-cases (permanent error || leb deps.max_attempts queued.dequeue_count)) [
        | inl ends ↦ rw ends (
            IsDelivered-of_result queued message
              (failure_result (target message) error queued.dequeue_count) (not (permanent error)) s
              (job_of-failure message error queued.dequeue_count))
        | inr retries ↦ rw retries (inl refl)
      ]

  IsDelivered-settle :
      (queued : QueueMessage) (message : WorkMessage) (s : Service)
      (r : Service × Result Thrown JobResult)
      → SameQueues s r.0
      → ((a : JobResult) → r.1 ≡ ok a → IsOf message a)
      → IsDelivered (some message) queued s (settle deps queued message r).0
  unfolding settle
  IsDelivered-settle queued message s (t, ok a) same gives =
      IsDelivered-SameQueues (some message) queued s t (settle deps queued message (t, ok a)).0 same
        (IsDelivered-of_result queued message a false t (gives a refl))
  IsDelivered-settle queued message s (t, err e) same gives =
      IsDelivered-SameQueues (some message) queued s t (settle deps queued message (t, err e)).0
        same (IsDelivered-handle_error queued message (as_job_error e) t)

  IsDelivered-handle_work :
      (queued : QueueMessage) (message : WorkMessage) (s : Service)
      → IsDelivered (some message) queued s (handle_work deps queued message s).0
  unfolding handle_work publish_failure
  IsDelivered-handle_work queued message s =
      elim (Bool-cases (ltb deps.max_attempts queued.dequeue_count)) [
        | inl over ↦ rw over (
            IsDelivered-of_result queued message
              (failure_result (target message) (exhausted queued.dequeue_count)
                queued.dequeue_count)
              true s (job_of-failure message (exhausted queued.dequeue_count) queued.dequeue_count))
        | inr within ↦ rw within (
            IsDelivered-settle queued message s (process deps message queued.dequeue_count s)
              ((process-KeepsQueues deps message queued.dequeue_count).keeps s)
              ((process-Gives message queued.dequeue_count).gives s))
      ]

  IsDelivered-handle_parsed :
      (queued : QueueMessage) (raw : Json) (s : Service) (parsed : Result JobError WorkMessage)
      → IsDelivered
          (elim parsed [ err _ ↦ none | ok m ↦ some m ])
          queued
          s
          (handle_parsed deps queued (some raw) parsed s).0
  unfolding reject handle_parsed handle_work
  IsDelivered-handle_parsed queued raw s (err e) =
      IsDelivered-report queued (report_target (some raw)) e s
  IsDelivered-handle_parsed queued raw s (ok m) = IsDelivered-handle_work queued m s

  -- Whatever calls of the storage fail or lose their answers, a message is still in the work queue
  -- after it was handled, or it is deleted and: a result of its job was sent where its text is a
  -- valid work message, and the text is in the poison queue where it is not.
  pub handle_message-IsDelivered :
      (queued : QueueMessage) (s : Service)
      → IsDelivered
          (message_in (deps.parse_json queued.content))
          queued
          s
          (handle_message deps queued s).0
  unfolding handle_message reject report_target
  handle_message-IsDelivered queued s = elim (Option-cases (deps.parse_json queued.content)) [
    | inl unread ↦
        rw (unread, handle_message) (IsDelivered-report queued none (as_job_error other_error) s)
    | inr (raw, read) ↦
        rw (read, handle_message) (IsDelivered-handle_parsed queued raw s (parse_work_message raw))
  ]

-- ===== src/PdfFunction/Worker/LastAttempt.antt =====
-- The last attempt at a message.
use slomp.Prelude.{
  Bool, true, false, ◌||◌, not, Option, none, some, [], ◌∷◌, ◌++◌, ltb, leb, Result, ok, err, ◌≡◌,
  refl, ap, ◌∙◌, inl, inr, Bool-cases, Option-cases, arith, ◌≤◌,
}
use slomp.PdfFunction.Contract.{
  Json, JobError, permanent, Thrown, other_error, WorkMessage, parse_work_message,
}
use slomp.PdfFunction.Storage.{
  QueueMessage, JobResult, Service, ◌>>◌, send_result, send_poison, delete_work, without,
}
use slomp.PdfFunction.Convert.{WorkerDeps}
use slomp.PdfFunction.Report.{
  as_job_error, ReportTarget, report_target, target, failure_result, publish_failure, reject,
  poison_if, report,
}
use slomp.PdfFunction.Worker.{
  handle_message, handle_work, handle_parsed, settle, handle_error, process, exhausted,
}
use slomp.PdfFunction.Worker.Queues.{SameQueues, process-KeepsQueues}
use slomp.PdfFunction.Worker.Delivered.{message_in, IsReported, job_of-failure, process-Gives, IsOf}

-- The message is deleted and reported.
abbrev pub IsSettled : Option WorkMessage → QueueMessage → Service → Service → Type 0
IsSettled message queued s t = (t.work ≡ without queued s.work) × IsReported message queued s t

module _ (queued : QueueMessage) where
  IsSettled-of_result :
      (message : WorkMessage) (r : JobResult) (to_poison : Bool) (s : Service)
      → s.faults ≡ []
      → IsOf message r
      → IsSettled
          (some message)
          queued
          s
          ((do send_result r; poison_if to_poison queued.content; delete_work queued) s).0
  unfolding send_result send_poison delete_work
  IsSettled-of_result message r true s works same = rw works (refl, (r, same, refl))
  IsSettled-of_result message r false s works same = rw works (refl, (r, same, refl))

  IsSettled-of_poison :
      (s : Service)
      → s.faults ≡ []
      → IsSettled none queued s ((do send_poison queued.content; delete_work queued) s).0
  unfolding send_poison delete_work
  IsSettled-of_poison s works = rw works (refl, refl)

  IsSettled-report :
      (t : Option ReportTarget) (error : JobError) (s : Service)
      → s.faults ≡ []
      → IsSettled none queued s
          ((do report t error queued.dequeue_count; send_poison queued.content; delete_work queued)
            s).0
  unfolding send_result send_poison delete_work failure_result
  IsSettled-report none error s works = IsSettled-of_poison s works
  IsSettled-report (some t) error s works = rw works (refl, refl)

  IsSettled-SameQueues :
      (message : Option WorkMessage) (s t u : Service)
      → SameQueues s t
      → IsSettled message queued t u
      → IsSettled message queued s u
  IsSettled-SameQueues none s t u (a, b, c, d) (h, k) =
      (h ∙ ap (without queued) a, k ∙ ap (λ p. p ++ queued.content ∷ []) c)
  IsSettled-SameQueues (some m) s t u (a, b, c, d) (h, (r, j, k)) =
      (h ∙ ap (without queued) a, (r, j, k ∙ ap (λ q. q ++ r ∷ []) b))

module _ (deps : WorkerDeps) (queued : QueueMessage)
    (last : deps.max_attempts ≤ queued.dequeue_count) where
  IsSettled-handle_error :
      (message : WorkMessage) (error : JobError) (s : Service)
      → s.faults ≡ []
      → IsSettled (some message) queued s (handle_error deps queued message error s).0
  unfolding handle_error publish_failure
  IsSettled-handle_error message error s works =
      let ends : (permanent error || leb deps.max_attempts queued.dequeue_count) ≡ true =
        ground arith in
      rw ends (
        IsSettled-of_result queued message
          (failure_result (target message) error queued.dequeue_count) (not (permanent error)) s
          works (job_of-failure message error queued.dequeue_count))

  IsSettled-settle :
      (message : WorkMessage) (s : Service) (r : Service × Result Thrown JobResult)
      → s.faults ≡ []
      → SameQueues s r.0
      → ((a : JobResult) → r.1 ≡ ok a → IsOf message a)
      → IsSettled (some message) queued s (settle deps queued message r).0
  unfolding settle
  IsSettled-settle message s (t, ok a) works same gives =
      IsSettled-SameQueues queued (some message) s t (settle deps queued message (t, ok a)).0 same
        (IsSettled-of_result queued message a false t (same.3 works) (gives a refl))
  IsSettled-settle message s (t, err e) works same gives =
      IsSettled-SameQueues queued (some message) s t (settle deps queued message (t, err e)).0 same
        (IsSettled-handle_error message (as_job_error e) t (same.3 works))

  IsSettled-handle_work :
      (message : WorkMessage) (s : Service)
      → s.faults ≡ []
      → IsSettled (some message) queued s (handle_work deps queued message s).0
  unfolding handle_work publish_failure
  IsSettled-handle_work message s works =
      elim (Bool-cases (ltb deps.max_attempts queued.dequeue_count)) [
        | inl over ↦ rw over (
            IsSettled-of_result queued message
              (failure_result (target message) (exhausted queued.dequeue_count)
                queued.dequeue_count)
              true s works
              (job_of-failure message (exhausted queued.dequeue_count) queued.dequeue_count))
        | inr within ↦ rw within (
            IsSettled-settle message s (process deps message queued.dequeue_count s) works
              ((process-KeepsQueues deps message queued.dequeue_count).keeps s)
              ((process-Gives deps message queued.dequeue_count).gives s))
      ]

  IsSettled-handle_parsed :
      (raw : Json) (s : Service) (parsed : Result JobError WorkMessage)
      → s.faults ≡ []
      → IsSettled
          (elim parsed [ err _ ↦ none | ok m ↦ some m ])
          queued
          s
          (handle_parsed deps queued (some raw) parsed s).0
  unfolding reject handle_parsed handle_work
  IsSettled-handle_parsed raw s (err e) works =
      IsSettled-report queued (report_target (some raw)) e s works
  IsSettled-handle_parsed raw s (ok m) works = IsSettled-handle_work m s works

  -- From its last allowed attempt on, where no call of the storage fails, a message that is handled
  -- leaves the work queue: a result of its job was sent where its text is a valid work message, and
  -- the text is in the poison queue where it is not.
  pub handle_message-last :
      (s : Service)
      → s.faults ≡ []
      → IsSettled
          (message_in (deps.parse_json queued.content))
          queued
          s
          (handle_message deps queued s).0
  unfolding handle_message reject report_target
  handle_message-last s works = elim (Option-cases (deps.parse_json queued.content)) [
    | inl unread ↦
        rw (unread, handle_message)
          (IsSettled-report queued none (as_job_error other_error) s works)
    | inr (raw, read) ↦
        rw (read, handle_message) (IsSettled-handle_parsed raw s (parse_work_message raw) works)
  ]

-- ===== src/PdfFunction/Tests.antt =====
-- The PDF service at concrete inputs.
use slomp.Prelude.{
  ℕ, true, none, some, [], ◌∷◌, if◌then◌else◌, ◌==◌, nat_eq, String, list_eq, codes, ok, ◌≡◌, ◌≢◌,
  refl, All, Pairwise, arith, pos,
}
use slomp.Prelude.Texts.{Text, trim}
use slomp.PdfJobs.Rules.{liquidacion}
use slomp.PdfFunction.Contract.{
  Json, integer, text, array, object, no_item, item, no_field, field, TemplateRef, BatchDocument,
  RenderBatchMessage, render_batch_message, parse_work_message, parse_batch_input,
}
use slomp.PdfFunction.Contract.Paths.{IsBelow, batch_paths}
use slomp.PdfFunction.Storage.{batch_done, QueueMessage, Service, fails, works, loses_answer}
use slomp.PdfFunction.Merge.{Pdf, split_pages}
use slomp.PdfFunction.Merge.Split.{IsSplitOf, split_pages-IsSplitOf}
use slomp.PdfFunction.Cache.{get_template}
use slomp.PdfFunction.Cache.Sound.{IsServed, get_template-IsServed}
use slomp.PdfFunction.Render.{read_from, finished}
use slomp.PdfFunction.Convert.{WorkerDeps}
use slomp.PdfFunction.Worker.{handle_message, render_batch}
use slomp.PdfFunction.Worker.Stored.{IsDone, render_batch-IsDone}
use slomp.PdfFunction.Loop.{Loop, start_tasks, start_worker, Reach, here, next, received}
use slomp.PdfFunction.Loop.Exclusive.{count, total, Reach-exclusive}
use slomp.PdfFunction.Worker.Delivered.{message_in, IsDelivered, handle_message-IsDelivered}
use slomp.PdfFunction.Worker.LastAttempt.{IsSettled, handle_message-last}

abbrev hash : Text
hash = codes "0123456789abcdef0123456789abcdef0123456789abcdef0123456789abcdef"

abbrev template_field : Json
template_field = object (field "blob" (text (codes "t/1")) (field "sha256" (text hash) no_field))

abbrev batch_json : Json
batch_json = object (
    field "schemaVersion" (integer (pos 1)) (
      field "type" (text (codes "render-batch")) (
        field "jobId" (text (codes "j")) (
          field "municipalityId" (integer (pos 1)) (
            field "documentType" (text (codes "LIQUIDACION")) (
              field "batchIndex" (integer (pos 0)) (
                field "inputBlob" (text (codes "jobs/in")) (
                  field "template" template_field
                    (field "outputPrefix" (text (codes "jobs/j/")) no_field)))))))))

abbrev batch_message : RenderBatchMessage
batch_message = record {
  job_id = codes "j";
  municipality_id = 1;
  kind = liquidacion;
  batch_index = 0;
  input_blob = codes "jobs/in";
  template_ref = record { blob = codes "t/1"; sha256 = hash };
  output_prefix = codes "jobs/j/";
}

abbrev document_json : String → Json
document_json name =
    object (field "fileName" (text (codes name)) (field "data" (object no_field) no_field))

abbrev input_json : Json
input_json = object (
    field "documents" (array (item (document_json "1.pdf") (item (document_json "2.pdf") no_item)))
      no_field)

abbrev document : String → BatchDocument
document name = record { file_name = codes name; values = no_field }

batch_json-parsed : parse_work_message batch_json ≡ ok (render_batch_message batch_message)
unfolding parse_work_message trim
batch_json-parsed = refl

input_json-parsed : parse_batch_input input_json ≡ ok (document "1.pdf" ∷ document "2.pdf" ∷ [])
unfolding parse_batch_input trim
input_json-parsed = refl

batch_paths_example :
    All IsBelow (codes "jobs/j/1.pdf" ∷ codes "jobs/j/2.pdf" ∷ [])
    × Pairwise (λ a b. a ≢ b) (codes "jobs/j/1.pdf" ∷ codes "jobs/j/2.pdf" ∷ [])
batch_paths_example =
    batch_paths batch_json input_json batch_message (document "1.pdf" ∷ document "2.pdf" ∷ [])
      batch_json-parsed input_json-parsed

abbrev merged : Pdf
merged = record {
  pages = 10 ∷ 11 ∷ 12 ∷ [];
  destinations = (codes "SlompDoc00002", some 2) ∷ (codes "SlompDoc00001", some 0) ∷ [];
}

merged-split : split_pages 2 merged ≡ some ((10 ∷ 11 ∷ []) ∷ (12 ∷ []) ∷ [])
unfolding split_pages
merged-split = refl

split_pages-IsSplitOf_example : IsSplitOf 2 merged ((10 ∷ 11 ∷ []) ∷ (12 ∷ []) ∷ [])
split_pages-IsSplitOf_example =
    split_pages-IsSplitOf 2 merged ((10 ∷ 11 ∷ []) ∷ (12 ∷ []) ∷ [])
      (omega arith, (omega arith, tt)) merged-split

abbrev queued : QueueMessage
queued = record { message_id = codes "m"; dequeue_count = 3; content = codes "batch" }

abbrev service : Service
service = record {
  work = queued ∷ [];
  results = [];
  poison = [];
  blobs = (codes "jobs/in", codes "input") ∷ (codes "t/1", codes "docx") ∷ [];
  cache = [];
  faults = [];
}

abbrev deps : WorkerDeps
deps = record {
  max_attempts = 3;
  timeout_ms = 60000;
  max_templates = 20;
  containers = codes "jobs" ∷ codes "t" ∷ [];
  parse_json = λ t. if t == codes "batch" then some batch_json else some input_json;
  decode = λ b. b;
  sha256 = λ b. hash;
  is_docx = λ b. true;
  fill = λ b values. some b;
  merge_documents = λ b documents. none;
  soffice = λ docs timeout. finished (λ i. some (codes "%PDF-1.7 %%EOF"));
  load_pdf = λ b. none;
  save_pdf = λ pages. none;
  zip = λ entries. [];
}

handle_message-last_example :
    IsSettled (message_in (some batch_json)) queued service (handle_message deps queued service).0
handle_message-last_example = handle_message-last deps queued (omega arith) service refl

-- The call that reads the template fails.
abbrev failing : Service
failing = record service { faults = works ∷ fails ∷ loses_answer ∷ [] }

handle_message-IsDelivered_example :
    IsDelivered (message_in (some batch_json)) queued failing (handle_message deps queued failing).0
handle_message-IsDelivered_example = handle_message-IsDelivered deps queued failing

batch_rendered : (render_batch deps batch_message 3 service).1 ≡ ok (batch_done (codes "j") 0 2 3)
unfolding render_batch trim read_from
batch_rendered = refl

render_batch-IsDone_example :
    IsDone deps batch_message 3 service
      (render_batch deps batch_message 3 service).0
      (batch_done (codes "j") 0 2 3)
render_batch-IsDone_example =
    render_batch-IsDone deps batch_message 3 service (omega arith, tt)
      (batch_done (codes "j") 0 2 3) batch_rendered

abbrev reference : TemplateRef
reference = record { blob = codes "t/1"; sha256 = hash }

get_template-IsServed_example :
    IsServed
      (λ b. hash)
      20
      reference
      (get_template (λ b. hash) 20 (codes "t" ∷ []) reference service)
get_template-IsServed_example =
    get_template-IsServed (λ b. hash) 20 (codes "t" ∷ []) reference service (omega arith, tt)

abbrev busy : Loop
busy = record { idle = 1 ∷ []; in_flight = (2, queued) ∷ [] }

busy_reached : Reach (start_worker (1 ∷ 2 ∷ [])) busy
unfolding start_tasks
busy_reached =
    next here (received (queued ∷ []) (start_worker (1 ∷ 2 ∷ [])) busy (omega arith) refl)

Reach-exclusive_example :
    (m : Loop) × (start_tasks (queued ∷ []) busy ≡ some m)
    × ((x : ℕ) → (total x busy ≡ count x (1 ∷ 2 ∷ [])) × (total x m ≡ count x (1 ∷ 2 ∷ [])))
Reach-exclusive_example = Reach-exclusive (1 ∷ 2 ∷ []) busy (queued ∷ []) busy_reached (omega arith)

-- ===== src/PdfFunction/Storage.antt =====
-- apps/pdf-function/src/storage.ts: the queues and blobs. Each call of the service works, fails, or
-- takes effect and loses its answer; `faults` lists how the calls of a run turn out, in their order,
-- and calls past its end work.
use slomp.Prelude.{
  ◌≡◌, refl, ◌⊎◌, inl, inr, ℕ, Bool, false, ◌&&◌, not, Option, none, some, List, [], ◌∷◌, ◌++◌,
  if◌then◌else◌, ◌==◌, nat_eq, list_eq, filter, includes, get, set, keys, Result, ok, err, take,
  drop,
}
use slomp.Prelude.Texts.{Text, index_of, starts_with}
use slomp.PdfFunction.Contract.{
  Json, no_field, field, text, JobError, Thrown, job_error, other_error, invalid_message, slash,
}

abbrev pub Buffer : Type 0
Buffer = List ℕ

pub record QueueMessage : Type 0 where
  pub message_id : Text
  pub dequeue_count : ℕ
  pub content : Text

pub data JobResult : Type 0 where
  batch_done : (job_id : Text) (batch_index document_count attempt : ℕ) → JobResult
  zip_done : (job_id : Text) (size_bytes : ℕ) → JobResult
  batch_failed : (job_id : Text) (batch_index : Json) (attempt : ℕ) (error : JobError) → JobResult
  zip_failed : (job_id : Text) (error : JobError) → JobResult

pub data Fault : Type 0 where
  works fails loses_answer : Fault

pub Fault-cases : (f : Fault) → (f ≡ works) ⊎ ((f ≡ fails) ⊎ (f ≡ loses_answer))
Fault-cases works = inl refl
Fault-cases fails = inr (inl refl)
Fault-cases loses_answer = inr (inr refl)

-- The queues, the blobs by path, and the templates that the process caches by their hash.
pub record Service : Type 0 where
  pub work : List QueueMessage
  pub results : List JobResult
  pub poison : List Text
  pub blobs : List (Text × Buffer)
  pub cache : List (Text × Buffer)
  pub faults : List Fault

abbrev pub Io : Type 0 → Type 0
Io A = Service → Service × Result Thrown A

-- What was thrown skips the rest.
abbrev pub continue :
    {A B : Type 0} → (A → Io B) → Service × Result Thrown A → Service × Result Thrown B
continue f (s, ok a) = f a s
continue f (s, err e) = (s, err e)

infixl 5 ◌>>=◌ ◌>>◌
abbrev pub ◌>>=◌ : {A B : Type 0} → Io A → (A → Io B) → Io B
m >>= f = λ s. continue f (m s)

abbrev pub ◌>>◌ : {B : Type 0} → Io (Unit {0}) → Io B → Io B
m >> k = m >>= λ _. k

abbrev pub return : {A : Type 0} → A → Io A
return a s = (s, ok a)

abbrev pub throw : {A : Type 0} → Thrown → Io A
throw e s = (s, err e)

abbrev pub or_throw : {A : Type 0} → Result JobError A → Io A
or_throw (ok a) = return a
or_throw (err e) = throw (job_error e)

abbrev pub answer : {A : Type 0} → Fault → A → Result Thrown A
answer works a = ok a
answer fails a = err other_error
answer loses_answer a = err other_error

abbrev pub effect : Fault → (Service → Service) → Service → Service
effect works f s = f s
effect fails f s = s
effect loses_answer f s = f s

abbrev pub next_fault : List Fault → Fault
next_fault [] = works
next_fault (x ∷ faults) = x

-- A call with an effect on the service, and what it answers.
abbrev pub call : {A : Type 0} → (Service → Service) → (Service → A) → Io A
call change reply s =
    let fault = next_fault s.faults in
    let called = record s { faults = drop 1 s.faults } in
    (effect fault change called, answer fault (reply called))

unfoldable pub send_result : JobResult → Io (Unit {0})
send_result r = call (λ s. record s { results = s.results ++ r ∷ [] }) (λ s. tt)

unfoldable pub send_poison : Text → Io (Unit {0})
send_poison t = call (λ s. record s { poison = s.poison ++ t ∷ [] }) (λ s. tt)

abbrev pub without : QueueMessage → List QueueMessage → List QueueMessage
without queued = filter (λ (m : QueueMessage). not (m.message_id == queued.message_id))

unfoldable pub delete_work : QueueMessage → Io (Unit {0})
delete_work queued = call (λ s. record s { work = without queued s.work }) (λ s. tt)

-- The container, up to the first slash, is one of those allowed.
abbrev pub is_allowed : List Text → Text → Bool
is_allowed containers path = elim (index_of path slash) [
  | none ↦ false
  | some at ↦ not (at == 0) && includes containers (take at path)
]

abbrev pub outside : Text → JobError
outside path = record { code = invalid_message; details = some (field "path" (text path) no_field) }

-- `blob(path)`, which throws before anything is called.
abbrev pub check_path : List Text → Text → Io (Unit {0})
check_path containers path =
    if is_allowed containers path then return tt else throw (job_error (outside path))

-- `none` for the status 404.
unfoldable pub download : List Text → Text → Io (Option Buffer)
download containers path = do check_path containers path; call (λ s. s) (λ s. get s.blobs path)

unfoldable pub upload_blob : List Text → Text → Buffer → Io (Unit {0})
upload_blob containers path content = do
  check_path containers path
  call (λ s. record s { blobs = set s.blobs path content }) (λ s. tt)

-- A blob that is missing fails as any other error does.
abbrev pub present : Option Buffer → Io Buffer
present none = throw other_error
present (some b) = return b

unfoldable pub open_read : List Text → Text → Io Buffer
open_read containers path = do
  check_path containers path
  found ← call (λ s. s) (λ s. get s.blobs path)
  present found

abbrev pub paths_under : Text → Service → List Text
paths_under prefix s = filter (λ path. starts_with path prefix) (keys s.blobs)

unfoldable pub list_blobs : List Text → Text → Io (List Text)
list_blobs containers prefix = do check_path containers prefix; call (λ s. s) (paths_under prefix)

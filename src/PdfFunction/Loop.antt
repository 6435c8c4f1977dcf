-- ===== src/PdfFunction/Loop.antt =====
-- apps/pdf-function/src/slots.ts, and startWorker of worker.ts beside it: the loop that takes messages
-- from the work queue and handles each on a slot of its own. A slot is a natural number. The queue
-- and the tasks that end are other parties: a round is a step on the pool and the tasks in flight.
pub mod Exclusive
use slomp.Prelude.{
  ℕ, zero, suc, Option, none, some, List, [], ◌∷◌, ◌++◌, map, length, min, ◌≤◌, ◌≡◌,
}
use slomp.Prelude.Texts.{reversed}
use slomp.PdfFunction.Storage.{QueueMessage}

-- The slot that `idle.pop()` takes, the one released last, stands first.
abbrev pub Pool : Type 0
Pool = List ℕ

abbrev pub create_slot_pool : List ℕ → Pool
create_slot_pool slots = reversed slots []

abbrev pub free : Pool → ℕ
free idle = length idle

abbrev pub try_acquire : Pool → Option (ℕ × Pool)
try_acquire [] = none
try_acquire (slot ∷ idle) = some (slot, idle)

abbrev pub release : ℕ → Pool → Pool
release slot idle = slot ∷ idle

abbrev pub Task : Type 0
Task = ℕ × QueueMessage

pub record Loop : Type 0 where
  pub idle : Pool
  pub in_flight : List Task

abbrev pub max_receive : ℕ
max_receive = 32

-- One task for each message received; `none` where a slot is missing, which the code rules out.
unfoldable pub start_tasks : List QueueMessage → Loop → Option Loop
start_tasks [] l = some l
start_tasks (queued ∷ messages) l = elim (try_acquire l.idle) [
  | none ↦ none
  | some acquired ↦
      start_tasks messages
        (record { idle = acquired.1; in_flight = l.in_flight ++ (acquired.0, queued) ∷ [] })
]

abbrev pub take_out : ℕ → List Task → Option (Task × List Task)
take_out i [] = none
take_out zero (t ∷ tasks) = some (t, tasks)
take_out (suc i) (t ∷ tasks) = elim (take_out i tasks) [
  | none ↦ none
  | some found ↦ some (found.0, t ∷ found.1)
]

-- A task that ends, whether it failed or not, gives its slot back.
unfoldable pub finish_task : ℕ → Loop → Loop
finish_task i l = elim (take_out i l.in_flight) [
  | none ↦ l
  | some found ↦ record { idle = release found.0.0 l.idle; in_flight = found.1 }
]

-- `receive(free)` returns as many messages as are asked for at most, and Azure no more than its limit.
pub data Step : Loop → Loop → Type 0 where
  received :
      (messages : List QueueMessage) (l m : Loop)
      → length messages ≤ min (free l.idle) max_receive
      → start_tasks messages l ≡ some m
      → Step l m
  ended : (i : ℕ) (l : Loop) → Step l (finish_task i l)

pub data Reach (l : Loop) : Loop → Type 0 where
  here : Reach l l
  next : {m n : Loop} → Reach l m → Step m n → Reach l n

abbrev pub start_worker : List ℕ → Loop
start_worker slots = record { idle = create_slot_pool slots; in_flight = [] }

-- ===== src/PdfFunction/Loop/Exclusive.antt =====
-- Which slots are idle and which are in use.
use slomp.Prelude.{
  ℕ, zero, suc, ◌+◌, some, List, [], ◌∷◌, ◌++◌, length, ◌≤◌, ◌≡◌, refl, sym, ap, ◌∙◌, ◌==◌, nat_eq,
  if◌then◌else◌, arith, Option-cases, inl, inr,
}
use slomp.Prelude.Texts.{reversed}
use slomp.PdfFunction.Storage.{QueueMessage}
use slomp.PdfFunction.Loop.{
  Loop, Task, Pool, free, start_tasks, take_out, finish_task, Step, received, ended, Reach, here,
  next, start_worker,
}

-- How often a slot is in a list.
abbrev pub count : ℕ → List ℕ → ℕ
count x [] = 0
count x (y ∷ ys) = if x == y then suc (count x ys) else count x ys

-- How many tasks in flight hold a slot.
abbrev pub held : ℕ → List Task → ℕ
held x [] = 0
held x (t ∷ tasks) = if x == t.0 then suc (held x tasks) else held x tasks

abbrev pub total : ℕ → Loop → ℕ
total x l = count x l.idle + held x l.in_flight

held-append : (x : ℕ) (ts us : List Task) → held x (ts ++ us) ≡ held x ts + held x us
held-append x [] us = omega arith
held-append x (t ∷ ts) us = ground (arith, held-append x ts us)

count-reversed : (x : ℕ) (ys out : List ℕ) → count x (reversed ys out) ≡ count x ys + count x out
count-reversed x [] out = omega arith
count-reversed x (y ∷ ys) out = ground (arith, count-reversed x ys (y ∷ out))

some_inj : (a b : Task × List Task) → some a ≡ some b → a ≡ b
some_inj a b h = ground arith

some_inj_loop : (a b : Loop) → some a ≡ some b → a ≡ b
some_inj_loop a b h = ground arith

abbrev loop : Pool → List Task → Loop
loop idle in_flight = record { idle = idle; in_flight = in_flight }

-- Where enough slots are idle, every message gets one.
start_tasks_lem :
    (messages : List QueueMessage) (idle : Pool) (tasks : List Task)
    → length messages ≤ length idle
    → (m : Loop) × (start_tasks messages (loop idle tasks) ≡ some m)
      × ((x : ℕ) → total x m ≡ total x (loop idle tasks))
unfolding start_tasks
start_tasks_lem [] idle tasks enough = (loop idle tasks, refl, λ x. refl)
start_tasks_lem (queued ∷ messages) [] tasks enough = absurd (omega arith)
start_tasks_lem (queued ∷ messages) (slot ∷ idle) tasks enough =
    let (m, starts, same) =
      start_tasks_lem messages idle (tasks ++ (slot, queued) ∷ []) (omega arith) in
    (m, starts, λ x. ground (arith, same x, held-append x tasks ((slot, queued) ∷ [])))

take_out_lem :
    (i : ℕ) (tasks : List Task) (found : Task × List Task) (x : ℕ)
    → take_out i tasks ≡ some found
    → held x tasks ≡ held x (found.0 ∷ found.1)
take_out_lem i [] found x h = absurd (ground arith)
take_out_lem zero (t ∷ tasks) found x h =
    let e : (t, tasks) ≡ found = ground arith in ap (λ (f : Task × List Task). held x (f.0 ∷ f.1)) e
take_out_lem (suc i) (t ∷ tasks) found x h = elim (Option-cases (take_out i tasks)) [
  | inl missing ↦ absurd (ground (arith, rw missing at h))
  | inr (rest, taken) ↦
      let e : (rest.0, t ∷ rest.1) ≡ found = some_inj (rest.0, t ∷ rest.1) found (rw taken at h) in
      ground (arith, take_out_lem i tasks rest x taken)
      ∙ ap (λ (f : Task × List Task). held x (f.0 ∷ f.1)) e
]

finish_task-total : (i : ℕ) (l : Loop) (x : ℕ) → total x (finish_task i l) ≡ total x l
unfolding finish_task
finish_task-total i l x = elim (Option-cases (take_out i l.in_flight)) [
  | inl missing ↦ rw (missing, finish_task) refl
  | inr (found, taken) ↦
      rw (taken, finish_task) (ground (arith, take_out_lem i l.in_flight found x taken))
]

Step-total : {l m : Loop} → Step l m → (x : ℕ) → total x m ≡ total x l
Step-total (received messages l m enough starts) x =
    let (n, starts', same) = start_tasks_lem messages l.idle l.in_flight (omega arith) in
    let e : n ≡ m = some_inj_loop n m (sym starts' ∙ starts) in ap (total x) (sym e) ∙ same x
Step-total (ended i l) x = finish_task-total i l x

kept :
    (slots : List ℕ) (l : Loop) → Reach (start_worker slots) l → (x : ℕ) → total x l ≡ count x slots
kept slots l here x = omega (arith, count-reversed x slots [])
kept slots l (next r step) x = Step-total step x ∙ kept slots _ r x

-- In every state that the worker reaches, messages no more than the idle slots can be started, each
-- on a slot, and before and after that each slot is idle or with a task in flight, in both together
-- as often as among the slots that the worker was started with.
pub Reach-exclusive :
    (slots : List ℕ) (l : Loop) (messages : List QueueMessage)
    → Reach (start_worker slots) l
    → length messages ≤ free l.idle
    → (m : Loop) × (start_tasks messages l ≡ some m)
      × ((x : ℕ) → (total x l ≡ count x slots) × (total x m ≡ count x slots))
Reach-exclusive slots l messages r enough =
    let (m, starts, same) = start_tasks_lem messages l.idle l.in_flight enough in
    (m, starts, λ x. (kept slots l r x, same x ∙ kept slots l r x))

-- ===== src/PdfJobs/Reserve/Revert.antt =====
-- A job that fails leaves no trace: reverting it undoes its reservation.
use slomp.Prelude.{
  ℕ, ◌+◌, ◌≤◌, ◌<◌, ◌≡◌, refl, ap, ◌∙◌, sym, subst, Bool, true, false, ◌&&◌, not, Option, none,
  some, List, [], ◌∷◌, ◌++◌, map, if◌then◌else◌, ◌==◌, nat_eq, ltb, leb, length, filter,
  filter-append, find, any, includes, get, ok, arith, All, Bool-cases, Option-cases, inl, inr, ◌⊎◌,
  beq_refl,
}
use mathlib.Core.List.{append-nil}
use slomp.Database.{update_where}
use slomp.Database.Rows.{filter-none, find-append_none, update_where-none}
use slomp.PdfJobs.Rules.{PdfJobStatus, job_status_eq, active_job_statuses, counter_after_revert}
use slomp.PdfJobs.Jobs.{
  World, PdfJob, Issued, Linked, ErrorCode, find_job, is_of_job, is_issued_by, revert,
  reverted_counter, revert_job, revert_counters,
}
use slomp.PdfJobs.Reserve.{issue_from, links_from, is_linkable, link, new_job, reserve}

-- A settlement without a resolution, or with one that stood in the database already.
abbrev pub is_before : ℕ → Option ℕ → Bool
is_before first_id none = true
is_before first_id (some d) = ltb d first_id

-- The database assigns new ids: no job and no document has the id of the job, and no settlement is
-- linked to a resolution with an id from `first_id` on.
pub record IsFresh (job_id first_id : ℕ) (w : World) : Type 0 where
  pub job : All (λ j. (j.id == job_id) ≡ false) w.jobs
  pub resolutions : All (λ d. is_of_job job_id d ≡ false) w.resolutions
  pub payment_orders : All (λ d. is_of_job job_id d ≡ false) w.payment_orders
  pub links : All (λ s. is_before first_id s.resolution_id ≡ true) w.settlements

filter_kept :
    (job_id : ℕ) (ds : List Issued)
    → All (λ d. is_of_job job_id d ≡ false) ds
    → filter (λ d. not (is_of_job job_id d)) ds ≡ ds
filter_kept job_id [] h = refl
filter_kept job_id (d ∷ ds) (h, hs) = rw h (ap (◌∷◌ d) (filter_kept job_id ds hs))

filter-issue_from :
    (job_id id seq : ℕ) (ds : List (List ℕ))
    → (filter (is_of_job job_id) (issue_from job_id id seq ds) ≡ issue_from job_id id seq ds)
      × (filter (λ d. not (is_of_job job_id d)) (issue_from job_id id seq ds) ≡ [])
unfolding issue_from
filter-issue_from job_id id seq [] = (refl, refl)
filter-issue_from job_id id seq (d ∷ ds) =
    ground (arith, beq_refl job_id, filter-issue_from job_id (id + 1) (seq + 1) ds)

includes-issue_from :
    (job_id id seq r : ℕ) (ds : List (List ℕ))
    → includes (map (λ x. x.id) (issue_from job_id id seq ds)) r
      ≡ (leb id r && ltb r (id + length ds))
unfolding issue_from
includes-issue_from job_id id seq r [] = ground arith
includes-issue_from job_id id seq r (d ∷ ds) =
    ground (arith, includes-issue_from job_id (id + 1) (seq + 1) r ds)

get-map_pair :
    (d : List ℕ) (id s : ℕ) (rest : List (ℕ × ℕ)) (r : ℕ)
    → get (map (λ x. (x, id)) d ++ rest) s ≡ some r
    → (r ≡ id) ⊎ (get rest s ≡ some r)
get-map_pair [] id s rest r e = inr e
get-map_pair (x ∷ d) id s rest r e = ground (arith, get-map_pair d id s rest r)

get-links_from :
    (id s r : ℕ) (ds : List (List ℕ))
    → get (links_from id ds) s ≡ some r
    → (id ≤ r) × (r < id + length ds)
unfolding links_from
get-links_from id s r [] e = absurd (cc)
get-links_from id s r (d ∷ ds) e = elim (get-map_pair d id s (links_from (id + 1) ds) r e) [
  | inl here ↦ omega arith
  | inr later ↦ let b = get-links_from (id + 1) s r ds later in omega arith
]

-- The resolutions of the job are the ones it issued.
is_issued_by-issue_from :
    (job_id id seq r : ℕ) (ds : List Issued) (pending : List (List ℕ))
    → All (λ d. is_of_job job_id d ≡ false) ds
    → is_issued_by job_id (ds ++ issue_from job_id id seq pending) (some r)
      ≡ (leb id r && ltb r (id + length pending))
is_issued_by-issue_from job_id id seq r ds pending h =
    let own = filter-issue_from job_id id seq pending in
    rw
      (
        filter-append (is_of_job job_id) ds (issue_from job_id id seq pending),
        filter-none (is_of_job job_id) ds h,
        own.0,
      )
      (includes-issue_from job_id id seq r pending)

kept-issue_from :
    (job_id id seq : ℕ) (ds : List Issued) (pending : List (List ℕ))
    → All (λ d. is_of_job job_id d ≡ false) ds
    → filter (λ d. not (is_of_job job_id d)) (ds ++ issue_from job_id id seq pending) ≡ ds
kept-issue_from job_id id seq ds pending h =
    let own = filter-issue_from job_id id seq pending in
    rw
      (
        filter-append (λ d. not (is_of_job job_id d)) ds (issue_from job_id id seq pending),
        filter_kept job_id ds h,
        own.1,
      )
      (append-nil ds)

module _ (job_id first_id seq : ℕ) (pending : List (List ℕ)) (ds : List Issued) where
  -- What the revert does to a settlement.
  abbrev unlinked : Linked → Linked
  unlinked s =
      if is_issued_by job_id (ds ++ issue_from job_id first_id seq pending) s.resolution_id
      then record s { resolution_id = none }
      else s

  unlinked-link :
      (s : Linked)
      → All (λ d. is_of_job job_id d ≡ false) ds
      → is_linkable (links_from first_id pending) s ≡ true
      → unlinked (link (links_from first_id pending) s) ≡ s
  unlinked-link s h linkable = elim (Option-cases (get (links_from first_id pending) s.id)) [
    | inl e ↦ absurd (ground arith)
    | inr (r, e) ↦
        let b = get-links_from first_id s.id r pending e in
        let same = is_issued_by-issue_from job_id first_id seq r ds pending h in
        let free : s.resolution_id ≡ none = ground arith in
        let hit : is_issued_by job_id (ds ++ issue_from job_id first_id seq pending) (some r)
            ≡ true =
          ground arith in
        rw (e, hit) (ap (λ o. record s { resolution_id = o }) (sym free))
  ]

  unlinked_old :
      (s : Linked)
      → All (λ d. is_of_job job_id d ≡ false) ds
      → is_before first_id s.resolution_id ≡ true
      → unlinked s ≡ s
  unlinked_old s h old = elim (Option-cases s.resolution_id) [
    | inl e ↦ rw e refl
    | inr (r, e) ↦
        let same = is_issued_by-issue_from job_id first_id seq r ds pending h in
        let miss : is_issued_by job_id (ds ++ issue_from job_id first_id seq pending) (some r)
            ≡ false =
          ground arith in
        rw (e, miss) refl
  ]

  restored :
      (ss : List Linked)
      → All (λ d. is_of_job job_id d ≡ false) ds
      → All (λ s. is_before first_id s.resolution_id ≡ true) ss
      → map unlinked (
          update_where
            (is_linkable (links_from first_id pending))
            (link (links_from first_id pending))
            ss)
        ≡ ss
  restored [] h old = refl
  restored (s ∷ ss) h (o, old) = elim (Bool-cases (is_linkable (links_from first_id pending) s)) [
    | inl e ↦ rw (e, unlinked-link s h e) (ap (◌∷◌ s) (restored ss h old))
    | inr e ↦ rw (e, unlinked_old s h o) (ap (◌∷◌ s) (restored ss h old))
  ]

is_issued_by-false :
    (job_id : ℕ) (ds : List Issued) (o : Option ℕ)
    → All (λ d. is_of_job job_id d ≡ false) ds
    → is_issued_by job_id ds o ≡ false
is_issued_by-false job_id ds none h = refl
is_issued_by-false job_id ds (some d) h = rw (filter-none (is_of_job job_id) ds h) refl

counter-reserve : (c n : ℕ) → reverted_counter (c + n) (c + 1) (c + n) ≡ c
unfolding counter_after_revert
counter-reserve c n = ground arith

revert-found :
    (job_id : ℕ) (code : ErrorCode) (from : List PdfJobStatus) (later : ℕ) (w : World)
    (job : PdfJob)
    → find_job job_id w ≡ some job
    → includes from job.status ≡ true
    → revert job_id code from later w ≡ revert_job job code later w
unfolding revert
revert-found job_id code from later w job found active = ground arith

-- The counters, the documents and the links of settlements are those of `w`.
pub record IsRestored (w v : World) : Type 0 where
  pub resolution_counter : v.resolution_counter ≡ w.resolution_counter
  pub payment_order_counter : v.payment_order_counter ≡ w.payment_order_counter
  pub resolutions : v.resolutions ≡ w.resolutions
  pub payment_orders : v.payment_orders ≡ w.payment_orders
  pub settlements : v.settlements ≡ w.settlements

module _ (job_id first_id total now later : ℕ) (pending : List (List ℕ)) (code : ErrorCode)
    (w : World) where
  -- The world after the insertion of the job, and after the whole reservation.
  abbrev inserted : Option (ℕ × ℕ) → World
  inserted sequences = record w { jobs = w.jobs ++ new_job job_id total sequences now ∷ [] }

  abbrev reserved_world : World
  reserved_world =
      record (inserted (some (w.resolution_counter + 1, w.resolution_counter + length pending))) {
        resolution_counter = w.resolution_counter + length pending;
        resolutions =
            w.resolutions ++ issue_from job_id first_id (w.resolution_counter + 1) pending;
        settlements =
            update_where (is_linkable (links_from first_id pending))
              (link (links_from first_id pending)) w.settlements;
      }

  find-inserted :
      (sequences : Option (ℕ × ℕ))
      → All (λ j. (j.id == job_id) ≡ false) w.jobs
      → find (λ j. j.id == job_id) (w.jobs ++ new_job job_id total sequences now ∷ [])
        ≡ some (new_job job_id total sequences now)
  find-inserted sequences h =
      rw
        (
          find-append_none (λ j. j.id == job_id) w.jobs (new_job job_id total sequences now ∷ []) h,
          beq_refl job_id,
        )
        refl

  abbrev job : Option (ℕ × ℕ) → PdfJob
  job sequences = new_job job_id total sequences now

  abbrev numbers : Option (ℕ × ℕ)
  numbers = some (w.resolution_counter + 1, w.resolution_counter + length pending)

  -- No payment order is of the job.
  no_orders :
      IsFresh job_id first_id w
      → (s : Linked) → is_issued_by job_id w.payment_orders s.payment_order_id ≡ false
  no_orders fresh s =
      is_issued_by-false job_id w.payment_orders s.payment_order_id fresh.payment_orders

  revert-inserted :
      IsFresh job_id first_id w
      → IsRestored w (revert job_id code active_job_statuses later (inserted none))
  unfolding revert_job revert_counters
  revert-inserted fresh =
      subst (IsRestored w)
        (sym (
          revert-found job_id code active_job_statuses later (inserted none) (job none)
            (find-inserted none fresh.job) refl))
        (record {
          resolution_counter = refl;
          payment_order_counter = refl;
          resolutions = filter_kept job_id w.resolutions fresh.resolutions;
          payment_orders = filter_kept job_id w.payment_orders fresh.payment_orders;
          settlements =
              update_where-none (λ s. is_issued_by job_id w.payment_orders s.payment_order_id)
                (λ s. record s { payment_order_id = none })
                (update_where (λ s. is_issued_by job_id w.resolutions s.resolution_id)
                  (λ s. record s { resolution_id = none }) w.settlements)
                (no_orders fresh)
              ∙ update_where-none (λ s. is_issued_by job_id w.resolutions s.resolution_id)
                  (λ s. record s { resolution_id = none }) w.settlements
                  (λ s. is_issued_by-false job_id w.resolutions s.resolution_id fresh.resolutions);
        })

  revert-reserved_world :
      IsFresh job_id first_id w
      → IsRestored w (revert job_id code active_job_statuses later reserved_world)
  unfolding revert_job revert_counters
  revert-reserved_world fresh =
      subst (IsRestored w)
        (sym (
          revert-found job_id code active_job_statuses later reserved_world (job numbers)
            (find-inserted numbers fresh.job) refl))
        (record {
          resolution_counter = counter-reserve w.resolution_counter (length pending);
          payment_order_counter = refl;
          resolutions =
              kept-issue_from job_id first_id (w.resolution_counter + 1) w.resolutions pending
                fresh.resolutions;
          payment_orders = filter_kept job_id w.payment_orders fresh.payment_orders;
          settlements =
              update_where-none (λ s. is_issued_by job_id w.payment_orders s.payment_order_id)
                (λ s. record s { payment_order_id = none })
                (map (unlinked job_id first_id (w.resolution_counter + 1) pending w.resolutions)
                  reserved_world.settlements)
                (no_orders fresh)
              ∙ restored job_id first_id (w.resolution_counter + 1) pending w.resolutions
                  w.settlements fresh.resolutions fresh.links;
        })

-- A job of liquidations that is reserved and then fails leaves the counters, the resolutions, the
-- payment orders and the links of the settlements as they were before its reservation, where the
-- database assigned new ids to the job and to its resolutions.
pub revert-reserve :
    (job_id first_id total now later : ℕ) (pending : List (List ℕ)) (code : ErrorCode)
    (w w' : World)
    → IsFresh job_id first_id w
    → reserve job_id first_id pending total now w ≡ ok w'
    → IsRestored w (revert job_id code active_job_statuses later w')
unfolding reserve
revert-reserve job_id first_id total now later pending code w w' fresh reserved =
    elim (Bool-cases (any (λ j. includes active_job_statuses j.status) w.jobs)) [
      | inl busy ↦ absurd (ground arith)
      | inr free ↦ elim (Bool-cases (length pending == 0)) [
        | inl none_pending ↦
            let same : inserted job_id first_id total now later pending code w none ≡ w' =
              ground arith in
            subst (λ v. IsRestored w (revert job_id code active_job_statuses later v)) same
              (revert-inserted job_id first_id total now later pending code w fresh)
        | inr some_pending ↦
            let same : reserved_world job_id first_id total now later pending code w ≡ w' =
              ground arith in
            subst (λ v. IsRestored w (revert job_id code active_job_statuses later v)) same
              (revert-reserved_world job_id first_id total now later pending code w fresh)
      ]
    ]

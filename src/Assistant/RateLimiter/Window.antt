-- ===== src/Assistant/RateLimiter/Window.antt =====
-- At most twenty messages a minute, and a refused one may be sent after the time that it names.
use slomp.Prelude.{
  ℕ, ◌+◌, ◌*◌, ◌≤◌, ◌<◌, ◌≡◌, refl, sym, ap, ◌∙◌, true, false, Option, none, some, List, [], ◌∷◌,
  ◌++◌, arith, if◌then◌else◌, leb, length, length-append, filter, filter-append, length-filter-le,
  get, set, get-set, nat_eq, ◌==◌, get_or, All, All-filter, All-filter_of_test, get-set_self,
  Bool-cases, inl, inr, subst,
}
use mathlib.Core.List.{append-nil, append_assoc}
use slomp.Assistant.RateLimiter.{
  messages_per_window, Sent, is_recent, recent_of, retry_after_seconds, consume,
}

-- A message of an Administrator at a time.
pub record Message : Type 0 where
  pub administrator_id : ℕ
  pub at : ℕ

pub run : Sent → List Message → Sent
run sent [] = sent
run sent (m ∷ ms) = run (consume m.administrator_id m.at sent).0 ms

-- The times at which an Administrator's messages were let through.
abbrev accepted_at : ℕ → Message → Option ℕ → List ℕ
accepted_at a m none = if m.administrator_id == a then m.at ∷ [] else []
accepted_at a m (some retry) = []

pub accepted : ℕ → Sent → List Message → List ℕ
unfolding run
accepted a sent [] = []
accepted a sent (m ∷ ms) =
    accepted_at a m (consume m.administrator_id m.at sent).1
    ++ accepted a (consume m.administrator_id m.at sent).0 ms

-- What is recent later was recent before.
filter-recent_later :
    (now later : ℕ) (xs : List ℕ)
    → now ≤ later
    → filter (is_recent later) (filter (is_recent now) xs) ≡ filter (is_recent later) xs
filter-recent_later now later [] h = refl
filter-recent_later now later (x ∷ xs) h = ground (arith, filter-recent_later now later xs h)

abbrev stored : ℕ → Sent → List ℕ
stored a sent = get_or (get sent a) []

-- The times in order, from `last` on, and the last of them.
abbrev pub IsOrdered : ℕ → List Message → Type 0
IsOrdered last [] = Unit
IsOrdered last (m ∷ ms) = (last ≤ m.at) × IsOrdered m.at ms

abbrev pub last_time : ℕ → List Message → ℕ
last_time last [] = last
last_time last (m ∷ ms) = last_time m.at ms

-- From `last` on, what is stored and recent is what was let through and is recent: twenty at most.
record IsCounted (a last : ℕ) (sent : Sent) (past : List ℕ) : Type 0 where
  same :
      (now : ℕ) → last ≤ now → filter (is_recent now) (stored a sent) ≡ filter (is_recent now) past
  few : (now : ℕ) → last ≤ now → length (filter (is_recent now) past) ≤ messages_per_window

stored-set :
    (a b : ℕ) (sent : Sent) (xs : List ℕ)
    → stored a (set sent b xs) ≡ (if b == a then xs else stored a sent)
stored-set a b sent xs = ground (arith, get-set sent b a xs)

module _ (a last now : ℕ) (sent sent' : Sent) (past : List ℕ) (ordered : last ≤ now)
    (h : IsCounted a last sent past) where
  -- A message of somebody else, or one that is refused.
  IsCounted-other : stored a sent' ≡ stored a sent → IsCounted a now sent' past
  IsCounted-other e = record {
    same = λ later l. ap (filter (is_recent later)) e ∙ h.same later (omega arith);
    few = λ later l. h.few later (omega arith);
  }

  IsCounted-full :
      stored a sent' ≡ filter (is_recent now) (stored a sent) → IsCounted a now sent' past
  IsCounted-full e = record {
    same = λ later l.
        ap (filter (is_recent later)) e
        ∙ filter-recent_later now later (stored a sent) l
        ∙ h.same later (omega arith);
    few = λ later l. h.few later (omega arith);
  }

  kept_later :
      (later : ℕ)
      → now ≤ later
      → filter (is_recent later) (filter (is_recent now) (stored a sent))
        ≡ filter (is_recent later) past
  kept_later later l = filter-recent_later now later (stored a sent) l ∙ h.same later (omega arith)

  IsCounted-free :
      stored a sent' ≡ filter (is_recent now) (stored a sent) ++ now ∷ []
      → length (filter (is_recent now) (stored a sent)) < messages_per_window
      → IsCounted a now sent' (past ++ now ∷ [])
  IsCounted-free e room = record {
    same = λ later l.
        ap (filter (is_recent later)) e
        ∙ filter-append (is_recent later) (filter (is_recent now) (stored a sent)) (now ∷ [])
        ∙ ap (λ xs. xs ++ filter (is_recent later) (now ∷ [])) (kept_later later l)
        ∙ sym (filter-append (is_recent later) past (now ∷ []));
    few = λ later l.
        rw
          (
            filter-append (is_recent later) past (now ∷ []),
            length-append (filter (is_recent later) past) (filter (is_recent later) (now ∷ [])),
            ← kept_later later l,
          )
          (let shrunk =
              length-filter-le (is_recent later) (filter (is_recent now) (stored a sent)) in
            let one = length-filter-le (is_recent later) (now ∷ []) in omega arith);
  }

consume-IsCounted :
    (a last : ℕ) (m : Message) (sent : Sent) (past : List ℕ)
    → last ≤ m.at
    → IsCounted a last sent past
    → IsCounted a m.at
        (consume m.administrator_id m.at sent).0
        (past ++ accepted_at a m (consume m.administrator_id m.at sent).1)
unfolding consume
consume-IsCounted a last m sent past ordered h =
    let recent : List ℕ = recent_of (get sent m.administrator_id) m.at in
    let now : ℕ = m.at in
    elim (Bool-cases (m.administrator_id == a)) [
      | inr other ↦ elim (Bool-cases (leb messages_per_window (length recent))) [
        | inl full ↦
            rw (full, append-nil past)
              (IsCounted-other a last now sent _ past ordered h
                (stored-set a m.administrator_id sent _ ∙ ground (arith, other)))
        | inr free ↦
            rw (free, other, append-nil past)
              (IsCounted-other a last now sent _ past ordered h
                (stored-set a m.administrator_id sent _ ∙ ground (arith, other)))
      ]
      | inl own ↦
          let e : m.administrator_id ≡ a = ground arith in
          elim (Bool-cases (leb messages_per_window (length recent))) [
            | inl full ↦
                rw (full, append-nil past)
                  (IsCounted-full a last now sent _ past ordered h (
                    stored-set a m.administrator_id sent _
                    ∙ rw own (ap (λ k. filter (is_recent now) (stored k sent)) e)))
            | inr free ↦
                rw (free, own)
                  (IsCounted-free a last now sent _ past ordered h
                    (stored-set a m.administrator_id sent _
                      ∙ rw own (ap (λ k. filter (is_recent now) (stored k sent) ++ now ∷ []) e))
                    (subst
                      (λ k. length (filter (is_recent now) (stored k sent)) < messages_per_window) e
                      (ground arith)))
          ]
    ]

run-IsCounted :
    (a last : ℕ) (sent : Sent) (past : List ℕ) (ms : List Message)
    → IsOrdered last ms
    → IsCounted a last sent past
    → IsCounted a (last_time last ms) (run sent ms) (past ++ accepted a sent ms)
unfolding run accepted
run-IsCounted a last sent past [] ordered h = rw (append-nil past) h
run-IsCounted a last sent past (m ∷ ms) (o, ordered) h =
    subst (IsCounted a (last_time m.at ms) (run (consume m.administrator_id m.at sent).0 ms))
      (append_assoc past (accepted_at a m (consume m.administrator_id m.at sent).1) _)
      (run-IsCounted a m.at (consume m.administrator_id m.at sent).0 _ ms ordered
        (consume-IsCounted a last m sent past o h))

-- Whatever messages of whatever Administrators are sent in order of time, an Administrator has at
-- most twenty let through in the minute up to any later moment.
pub accepted_bound :
    (a now : ℕ) (ms : List Message)
    → IsOrdered 0 ms
    → last_time 0 ms ≤ now
    → length (filter (is_recent now) (accepted a [] ms)) ≤ messages_per_window
accepted_bound a now ms ordered later =
    (run-IsCounted a 0 [] [] ms ordered
        (record { same = λ t l. refl; few = λ t l. omega arith })).few
      now later

expired :
    (now later first : ℕ) (recent : List ℕ)
    → is_recent now first ≡ true
    → now + retry_after_seconds (first ∷ recent) now * 1000 ≤ later
    → is_recent later first ≡ false
expired now later first recent r l = ground arith

retry_lem :
    (now later : ℕ) (recent : List ℕ)
    → length recent ≡ messages_per_window
    → All (λ at. at ≤ now) recent
    → All (λ at. is_recent now at ≡ true) recent
    → now + retry_after_seconds recent now * 1000 ≤ later
    → (1 ≤ retry_after_seconds recent now)
      × (retry_after_seconds recent now ≤ 60)
      × (length (filter (is_recent later) recent) < messages_per_window)
retry_lem now later [] full past still l = absurd (omega arith)
retry_lem now later (first ∷ recent) full (p, past) (q, still) l =
    let gone : is_recent later first ≡ false = expired now later first recent q l in
    let shrunk = length-filter-le (is_recent later) recent in
    (ground arith, ground arith, rw gone (omega arith))

module _ (a now : ℕ) (sent : Sent) where
  consume_full :
      leb messages_per_window (length (recent_of (get sent a) now)) ≡ true
      → consume a now sent ≡ (
        set sent a (recent_of (get sent a) now),
        some (retry_after_seconds (recent_of (get sent a) now) now),
      )
  unfolding consume
  consume_full full = rw full refl

  consume_free :
      leb messages_per_window (length (recent_of (get sent a) now)) ≡ false
      → (consume a now sent).1 ≡ none
  unfolding consume
  consume_free free = rw free refl

-- A message that is refused names between one and sixty seconds, after which the same Administrator
-- may send one, where at most twenty times are stored, none of them later than the refusal, and
-- nothing is sent in between.
consume_again :
    (a now later seconds : ℕ) (sent : Sent)
    → length (get_or (get sent a) []) ≤ messages_per_window
    → All (λ at. at ≤ now) (get_or (get sent a) [])
    → (consume a now sent).1 ≡ some seconds
    → now + seconds * 1000 ≤ later
    → (1 ≤ seconds) × (seconds ≤ 60) × ((consume a later (consume a now sent).0).1 ≡ none)
consume_again a now later seconds sent few past refused l =
    let recent : List ℕ = recent_of (get sent a) now in
    elim (Bool-cases (leb messages_per_window (length recent))) [
      | inr free ↦ absurd (ground (arith, consume_free a now sent free))
      | inl full ↦
          let e = consume_full a now sent full in
          let same : retry_after_seconds recent now ≡ seconds = ground (arith, ap (λ x. x.1) e) in
          let size = length-filter-le (is_recent now) (stored a sent) in
          let (lower, upper, room) =
            retry_lem now later recent (ground arith)
              (All-filter _ (is_recent now) (stored a sent) past)
              (All-filter_of_test (λ at. is_recent now at ≡ true) (is_recent now) (stored a sent)
                (λ at q. q))
              (rw same l) in
          (
            rw⁻¹ same lower,
            rw⁻¹ same upper,
            rw e (consume_free a later _ (rw (get-set_self sent a recent) (ground (arith, room)))),
          )
    ]

-- ===== src/Auth/LoginAttempts/Keys.antt =====
-- What a failure does to its own keys and to the others.
use slomp.Prelude.{
  ℕ, ◌+◌, ◌≤◌, ◌<◌, ◌≡◌, refl, ap, Bool, false, not, Option, none, some, List, [], ◌∷◌, ◌++◌, arith,
  if◌then◌else◌, ltb, length, filter, get, set, get-set, get-set_self, IsMap, list_eq, nat_eq, All,
  includes, Bool-cases, inl, inr, ◌⊎◌, ltb_ℤ, sub_ℕ, pos, leb,
}
use slomp.Auth.LoginAttempts.{
  AttemptRecord, LoginAttemptTracker, Text, lockout_duration_ms, max_lockout_ms,
  max_failed_attempts, failure_window_ms, is_stale, is_locked, prune, max_tracked_keys,
  known_record, fail_record, record_failure, fail_keys, register_failure, locked_until_of,
}

-- The record that `prune` keeps for a key.
abbrev kept : ℕ → Option AttemptRecord → Option AttemptRecord
kept now none = none
kept now (some r) = if is_stale r now then none else some r

pub get-filter-none :
    (p : Text × AttemptRecord → Bool) (m : LoginAttemptTracker) (k : Text)
    → get m k ≡ none
    → get (filter p m) k ≡ none
get-filter-none p [] k h = refl
get-filter-none p ((j, x) ∷ m) k h = ground (arith, get-filter-none p m k)

get-filter :
    (now : ℕ) (m : LoginAttemptTracker) (k : Text)
    → IsMap m
    → get (filter (λ b. not (is_stale b.1 now)) m) k ≡ kept now (get m k)
get-filter now [] k u = refl
get-filter now ((j, x) ∷ m) k (n, u) = ground (
  arith,
  get-filter now m k u,
  get-filter-none (λ b. not (is_stale b.1 now)) m k,
  (list_eq {A = ℕ}).equals_iff j k,
  λ (q : j ≡ k). ap (get m) q,
)

get-prune :
    (now : ℕ) (m : LoginAttemptTracker) (k : Text)
    → IsMap m
    → (get (prune now m) k ≡ get m k) ⊎ (get (prune now m) k ≡ kept now (get m k))
unfolding prune
get-prune now m k u = elim (Bool-cases (ltb (length m) max_tracked_keys)) [
  | inl small ↦ inl (rw small refl)
  | inr full ↦ inr (rw full (get-filter now m k u))
]

get-fail_keys :
    (now : ℕ) (keys : List Text) (m : LoginAttemptTracker) (k : Text)
    → includes keys k ≡ false
    → get (fail_keys keys now m) k ≡ get m k
unfolding fail_keys
get-fail_keys now [] m k h = refl
get-fail_keys now (j ∷ keys) m k h = ground (
  arith,
  get-fail_keys now keys (set m j (fail_record (get m j) now)) k,
  get-set m j k (fail_record (get m j) now),
)

locked-kept :
    (now t : ℕ) (o : Option AttemptRecord)
    → now ≤ t
    → ltb t (locked_until_of (kept now o)) ≡ ltb t (locked_until_of o)
unfolding is_stale
locked-kept now t none h = refl
locked-kept now t (some r) h = ground arith

-- A failure never changes, then or later, whether a key that it does not count for is locked: also
-- when the map is full and stale records are dropped.
pub is_locked-register_failure :
    (keys : List Text) (now t : ℕ) (m : LoginAttemptTracker) (k : Text)
    → IsMap m
    → includes keys k ≡ false
    → now ≤ t
    → is_locked (k ∷ []) t (register_failure keys now m) ≡ is_locked (k ∷ []) t m
unfolding is_locked register_failure
is_locked-register_failure keys now t m k u h later = ground (
  arith,
  get-fail_keys now keys (prune now m) k h,
  get-prune now m k u,
  locked-kept now t (get m k) later,
  ap (λ o. ltb t (locked_until_of o)) {x = get (register_failure keys now m) k} {y = get m k},
)

known_record-kept :
    (now : ℕ) (o : Option AttemptRecord) → known_record (kept now o) now ≡ known_record o now
known_record-kept now none = refl
known_record-kept now (some r) = ground arith

fail_record-kept :
    (now : ℕ) (o : Option AttemptRecord) → fail_record (kept now o) now ≡ fail_record o now
unfolding fail_record
fail_record-kept now o = ap (λ r. record_failure r now) (known_record-kept now o)

pub get-register_failure :
    (now : ℕ) (m : LoginAttemptTracker) (k : Text)
    → IsMap m
    → get (register_failure (k ∷ []) now m) k ≡ some (fail_record (get m k) now)
unfolding register_failure fail_keys
get-register_failure now m k u = elim (get-prune now m k u) [
  | inl e ↦ rw (get-set_self (prune now m) k _, e) refl
  | inr e ↦ rw (get-set_self (prune now m) k _, e) (ap some (fail_record-kept now (get m k)))
]

-- A record of failures that are all in the window, while it is not locked.
abbrev pub after_failures : List ℕ → ℕ → AttemptRecord
after_failures failures last = record {
  failures = failures;
  locked_until = 0;
  lockouts = 0;
  last_activity = last;
}

filter-recent :
    (now : ℕ) (failures : List ℕ)
    → All (λ f. now < f + failure_window_ms) failures
    → filter (λ f. ltb_ℤ (sub_ℕ now f) (pos failure_window_ms)) failures ≡ failures
filter-recent now [] h = refl
filter-recent now (f ∷ fs) (p, h) = ground (arith, filter-recent now fs h)

pub fail_again :
    (now last : ℕ) (failures : List ℕ)
    → All (λ f. now < f + failure_window_ms) failures
    → now < last + max_lockout_ms
    → fail_record (some (after_failures failures last)) now ≡ (
        if leb max_failed_attempts (length (failures ++ now ∷ []))
        then record {
          failures = [];
          locked_until = now + lockout_duration_ms 0;
          lockouts = 1;
          last_activity = now;
        }
        else after_failures (failures ++ now ∷ []) now)
unfolding fail_record is_stale
fail_again now last failures h l = ground (arith, filter-recent now failures h)

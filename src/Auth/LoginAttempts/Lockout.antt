-- ===== src/Auth/LoginAttempts/Lockout.antt =====
-- How long a key is locked, and what a history of attempts does to it.
use slomp.Prelude.{
  Option-cases, Bool-cases, inl, inr, ℕ, zero, suc, ◌+◌, ◌^◌, ◌≤◌, ◌<◌, ◌≡◌, refl, false, not,
  Option, none, some, List, [], ◌∷◌, arith, ltb, length, get, set, delete, list_eq, nat_eq, All,
  All-filter,
}
use native.Mathlib.Nat.{pow-suc}
use slomp.Auth.LoginAttempts.{
  AttemptRecord, LoginAttemptTracker, Text, lockout_duration_ms, base_lockout_ms, max_lockout_ms,
  max_failed_attempts, max_tracked_keys, is_stale, is_locked, prune, fail_record, fail_keys,
  register_failure, register_success,
}

pow_pos : (n : ℕ) → 1 ≤ 2 ^ n
pow_pos zero = omega arith
pow_pos (suc n) = omega (arith, pow-suc 2 n, pow_pos n)

-- A lockout lasts from a quarter of an hour to an hour, and the next one in a row is never shorter.
pub lockout_duration_ms_bounds :
    (n : ℕ)
    → (base_lockout_ms ≤ lockout_duration_ms n)
      × (lockout_duration_ms n ≤ max_lockout_ms)
      × (lockout_duration_ms n ≤ lockout_duration_ms (suc n))
unfolding lockout_duration_ms
lockout_duration_ms_bounds n = omega (arith, pow_pos n, pow-suc 2 n)

-- What holds of every record that attempts up to the time `latest` leave behind.
pub record IsTracked (latest : ℕ) (r : AttemptRecord) : Type 0 where
  pub few : length r.failures < max_failed_attempts
  pub past : r.last_activity ≤ latest
  pub capped : r.locked_until ≤ latest + max_lockout_ms

abbrev AreTracked : ℕ → LoginAttemptTracker → Type 0
AreTracked latest = All (λ b. IsTracked latest b.1)

fail_record-IsTracked :
    (latest now : ℕ) (o : Option AttemptRecord)
    → now ≤ latest
    → ((r : AttemptRecord) → o ≡ some r → IsTracked latest r)
    → IsTracked latest (fail_record o now)
unfolding fail_record
fail_record-IsTracked latest now none h v = ground (arith, lockout_duration_ms_bounds 0)
fail_record-IsTracked latest now (some r) h v =
    ground (arith, v r refl, lockout_duration_ms_bounds r.lockouts, lockout_duration_ms_bounds 0)

get-AreTracked :
    (latest : ℕ) (m : LoginAttemptTracker) (k : Text) (r : AttemptRecord)
    → AreTracked latest m
    → get m k ≡ some r
    → IsTracked latest r
get-AreTracked latest [] k r v e = cc
get-AreTracked latest ((j, x) ∷ m) k r (v, vs) e = ground (arith, get-AreTracked latest m k r vs)

set-AreTracked :
    (latest : ℕ) (m : LoginAttemptTracker) (k : Text) (r : AttemptRecord)
    → AreTracked latest m
    → IsTracked latest r
    → AreTracked latest (set m k r)
set-AreTracked latest [] k r vs v = (v, tt)
set-AreTracked latest ((j, x) ∷ m) k r (w, vs) v = ground (arith, set-AreTracked latest m k r vs v)

delete-AreTracked :
    (latest : ℕ) (m : LoginAttemptTracker) (k : Text)
    → AreTracked latest m
    → AreTracked latest (delete m k)
delete-AreTracked latest [] k vs = tt
delete-AreTracked latest ((j, x) ∷ m) k (w, vs) = ground (arith, delete-AreTracked latest m k vs)

fail_keys-AreTracked :
    (latest now : ℕ) (keys : List Text) (m : LoginAttemptTracker)
    → now ≤ latest
    → AreTracked latest m
    → AreTracked latest (fail_keys keys now m)
unfolding fail_keys
fail_keys-AreTracked latest now [] m h vs = vs
fail_keys-AreTracked latest now (k ∷ keys) m h vs = fail_keys-AreTracked latest now keys _ h (
    set-AreTracked latest m k _ vs
      (fail_record-IsTracked latest now (get m k) h (λ r e. get-AreTracked latest m k r vs e)))

-- A history of the tracker: failed and successful attempts, each with its time and its keys.
pub data Attempt : Type 0 where
  failed : ℕ → List Text → Attempt
  succeeded : ℕ → List Text → Attempt

abbrev pub time_of : Attempt → ℕ
time_of (failed now keys) = now
time_of (succeeded now keys) = now

abbrev pub attempt : LoginAttemptTracker → Attempt → LoginAttemptTracker
attempt m (failed now keys) = register_failure keys now m
attempt m (succeeded now keys) = register_success keys m

pub history : LoginAttemptTracker → List Attempt → LoginAttemptTracker
history m [] = m
history m (a ∷ as') = history (attempt m a) as'

register_success-AreTracked :
    (latest : ℕ) (keys : List Text) (m : LoginAttemptTracker)
    → AreTracked latest m
    → AreTracked latest (register_success keys m)
unfolding register_success
register_success-AreTracked latest [] m vs = vs
register_success-AreTracked latest (k ∷ keys) m vs =
    register_success-AreTracked latest keys _ (delete-AreTracked latest m k vs)

prune-AreTracked :
    (latest now : ℕ) (m : LoginAttemptTracker)
    → AreTracked latest m
    → AreTracked latest (prune now m)
unfolding prune
prune-AreTracked latest now m vs = elim (Bool-cases (ltb (length m) max_tracked_keys)) [
  | inl small ↦ rw small vs
  | inr full ↦ rw full (All-filter (λ b. IsTracked latest b.1) (λ b. not (is_stale b.1 now)) m vs)
]

attempt-AreTracked :
    (latest : ℕ) (m : LoginAttemptTracker) (a : Attempt)
    → time_of a ≤ latest
    → AreTracked latest m
    → AreTracked latest (attempt m a)
unfolding register_failure
attempt-AreTracked latest m (failed now keys) h vs =
    fail_keys-AreTracked latest now keys _ h (prune-AreTracked latest now m vs)
attempt-AreTracked latest m (succeeded now keys) h vs = register_success-AreTracked latest keys m vs

-- Whatever the history, every record keeps fewer than five failures, all of its times are past, and
-- it is locked for at most an hour from now.
pub history-AreTracked :
    (latest : ℕ) (past : List Attempt) (m : LoginAttemptTracker)
    → All (λ a. time_of a ≤ latest) past
    → AreTracked latest m
    → AreTracked latest (history m past)
unfolding history
history-AreTracked latest [] m h vs = vs
history-AreTracked latest (a ∷ past) m (h, hs) vs =
    history-AreTracked latest past _ hs (attempt-AreTracked latest m a h vs)

unlocked :
    (latest now : ℕ) (m : LoginAttemptTracker) (keys : List Text)
    → AreTracked latest m
    → latest + max_lockout_ms ≤ now
    → is_locked keys now m ≡ false
unfolding is_locked
unlocked latest now m [] vs h = refl
unlocked latest now m (k ∷ keys) vs h = elim (Option-cases (get m k)) [
  | inl e ↦ rw e (ground (arith, unlocked latest now m keys vs h))
  | inr (r, e) ↦
      rw e (ground (arith, unlocked latest now m keys vs h, get-AreTracked latest m k r vs e))
]

-- After any history of attempts that starts from an empty tracker, no key is locked once an hour
-- has passed since the latest time in it.
pub is_locked-history :
    (latest now : ℕ) (past : List Attempt) (keys : List Text)
    → All (λ a. time_of a ≤ latest) past
    → latest + max_lockout_ms ≤ now
    → is_locked keys now (history [] past) ≡ false
is_locked-history latest now past keys h later =
    unlocked latest now _ keys (history-AreTracked latest past [] h tt) later

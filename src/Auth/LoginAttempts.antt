-- ===== src/Auth/LoginAttempts.antt =====
-- apps/backend/src/auth/login-attempt-tracker.ts. A text is the list of its characters' codes, and
-- the clock's value `now` is an argument of each call. `normalize` is email.trim().toLowerCase().
pub mod Lockout
pub mod Keys
pub mod FiveFailures
use slomp.Prelude.{
  ℕ, suc, ◌+◌, ◌*◌, ◌^◌, min, max, Bool, true, false, ◌&&◌, not, Option, none, some, List, [], ◌∷◌,
  ◌++◌, if◌then◌else◌, ltb, leb, ltb_ℤ, leb_ℤ, pos, sub_ℕ, length, filter, any, get, set, delete,
  Eq, nat_eq, list_eq, codes, String,
}

abbrev pub max_failed_attempts : ℕ
max_failed_attempts = 5

abbrev pub failure_window_ms : ℕ
failure_window_ms = 15 * 60000

abbrev pub base_lockout_ms : ℕ
base_lockout_ms = 15 * 60000

abbrev pub max_lockout_ms : ℕ
max_lockout_ms = 60 * 60000

abbrev pub max_tracked_keys : ℕ
max_tracked_keys = 10000

pub record AttemptRecord : Type 0 where
  pub failures : List ℕ
  pub locked_until : ℕ
  pub lockouts : ℕ
  pub last_activity : ℕ

unfoldable pub lockout_duration_ms : ℕ → ℕ
lockout_duration_ms previous_lockouts = min (base_lockout_ms * 2 ^ previous_lockouts) max_lockout_ms

abbrev pub Text : Type 0
Text = List ℕ

unfoldable pub login_attempt_keys : (Text → Text) → Text → Text → List Text
login_attempt_keys normalize email ip =
    (codes "email:" ++ normalize email) ∷ (codes "ip:" ++ ip) ∷ []

-- the private `records`
abbrev pub LoginAttemptTracker : Type 0
LoginAttemptTracker = List (Text × AttemptRecord)

unfoldable pub is_stale : AttemptRecord → ℕ → Bool
is_stale r now = leb_ℤ (pos max_lockout_ms) (sub_ℕ now (max r.locked_until r.last_activity))

abbrev locked_until_of : Option AttemptRecord → ℕ
locked_until_of none = 0
locked_until_of (some r) = r.locked_until

unfoldable pub is_locked : List Text → ℕ → LoginAttemptTracker → Bool
is_locked keys now records = any (λ key. ltb now (locked_until_of (get records key))) keys

unfoldable pub prune : ℕ → LoginAttemptTracker → LoginAttemptTracker
prune now records =
    if ltb (length records) max_tracked_keys
    then records
    else filter (λ b. not (is_stale b.1 now)) records

abbrev pub fresh_record : ℕ → AttemptRecord
fresh_record now = record { failures = []; locked_until = 0; lockouts = 0; last_activity = now }

abbrev pub known_record : Option AttemptRecord → ℕ → AttemptRecord
known_record none now = fresh_record now
known_record (some r) now = if not (is_stale r now) then r else fresh_record now

-- the failures that still count, with this one
unfoldable pub counted : AttemptRecord → ℕ → List ℕ
counted r now =
    filter (λ failed_at. ltb_ℤ (sub_ℕ now failed_at) (pos failure_window_ms)) r.failures ++ now ∷ []

-- `record` of registerFailure after the failure, before it is stored
unfoldable pub record_failure : AttemptRecord → ℕ → AttemptRecord
unfolding counted
record_failure r now =
    let failures = counted r now in
    if leb max_failed_attempts (length failures)
    then record {
      failures = [];
      locked_until = now + lockout_duration_ms r.lockouts;
      lockouts = r.lockouts + 1;
      last_activity = now;
    }
    else record r { failures = failures; last_activity = now }

-- one round of the loop of registerFailure, for the record of the key
unfoldable pub fail_record : Option AttemptRecord → ℕ → AttemptRecord
unfolding record_failure
fail_record known now = record_failure (known_record known now) now

pub fail_keys : List Text → ℕ → LoginAttemptTracker → LoginAttemptTracker
fail_keys [] now records = records
fail_keys (key ∷ keys) now records =
    fail_keys keys now (set records key (fail_record (get records key) now))

unfoldable pub register_failure : List Text → ℕ → LoginAttemptTracker → LoginAttemptTracker
unfolding fail_keys prune
register_failure keys now records = fail_keys keys now (prune now records)

unfoldable pub register_success : List Text → LoginAttemptTracker → LoginAttemptTracker
register_success [] records = records
register_success (key ∷ keys) records = register_success keys (delete records key)

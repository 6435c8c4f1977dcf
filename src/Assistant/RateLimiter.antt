-- ===== src/Assistant/RateLimiter.antt =====
-- apps/backend/src/assistant/assistant-rate-limiter.ts. The map of an Administrator's times is the
-- private `sent`; the clock is an argument. A call that throws returns its retryAfterSeconds, with
-- the state that it leaves.
pub mod Window
use slomp.Prelude.{
  ℕ, ◌+◌, ◌-◌, ◌*◌, ◌/◌, max, Option, none, some, List, [], ◌∷◌, ◌++◌, if◌then◌else◌, leb, ltb_ℤ,
  pos, sub_ℕ, length, filter, get, set, nat_eq, get_or, Bool,
}

abbrev pub messages_per_window : ℕ
messages_per_window = 20

abbrev pub window_ms : ℕ
window_ms = 60000

abbrev pub Sent : Type 0
Sent = List (ℕ × List ℕ)

abbrev pub is_recent : ℕ → ℕ → Bool
is_recent now at = ltb_ℤ (sub_ℕ now at) (pos window_ms)

abbrev pub recent_of : Option (List ℕ) → ℕ → List ℕ
recent_of stored now = filter (is_recent now) (get_or stored [])

-- `Math.max(1, Math.ceil((recent[0] + WINDOW_MS - now) / 1000))`; the first recent message is less
-- than a window old, so that the difference is positive.
abbrev pub retry_after_seconds : List ℕ → ℕ → ℕ
retry_after_seconds [] now = 1
retry_after_seconds (first ∷ recent) now = max 1 ((first + window_ms - now + 999) / 1000)

unfoldable pub consume : ℕ → ℕ → Sent → Sent × Option ℕ
consume administrator_id now sent =
    let recent = recent_of (get sent administrator_id) now in
    if leb messages_per_window (length recent)
    then (set sent administrator_id recent, some (retry_after_seconds recent now))
    else (set sent administrator_id (recent ++ now ∷ []), none)

-- ===== src/Auth/LoginAttempts/FiveFailures.antt =====
-- Five failures of a key within a quarter of an hour lock it for a quarter of an hour.
use slomp.Prelude.{
  ℕ, ◌+◌, ◌≤◌, ◌<◌, ◌≡◌, refl, ap, ◌∙◌, Bool, false, not, none, some, List, [], ◌∷◌, ◌++◌, arith,
  ltb, length, length-append, filter, get, IsMap, set-IsMap, list_eq, nat_eq, All, Bool-cases, inl,
  inr,
}
use slomp.Auth.LoginAttempts.{
  AttemptRecord, LoginAttemptTracker, Text, lockout_duration_ms, base_lockout_ms, max_lockout_ms,
  max_tracked_keys, failure_window_ms, is_stale, is_locked, prune, fail_record, fail_keys,
  register_failure, locked_until_of,
}
use slomp.Auth.LoginAttempts.Keys.{
  after_failures, fail_again, get-register_failure, get-filter-none,
}

filter-IsMap :
    (p : Text × AttemptRecord → Bool) (m : LoginAttemptTracker) → IsMap m → IsMap (filter p m)
filter-IsMap p [] u = tt
filter-IsMap p ((j, x) ∷ m) (n, u) = ground (arith, filter-IsMap p m u, get-filter-none p m j n)

prune-IsMap : (now : ℕ) (m : LoginAttemptTracker) → IsMap m → IsMap (prune now m)
unfolding prune
prune-IsMap now m u = elim (Bool-cases (ltb (length m) max_tracked_keys)) [
  | inl small ↦ rw small u
  | inr full ↦ rw full (filter-IsMap (λ b. not (is_stale b.1 now)) m u)
]

fail-IsMap :
    (now : ℕ) (k : Text) (m : LoginAttemptTracker)
    → IsMap m
    → IsMap (register_failure (k ∷ []) now m)
unfolding register_failure fail_keys
fail-IsMap now k m u = set-IsMap (prune now m) k _ (prune-IsMap now m u)

module _ (k : Text) where
  abbrev fail : ℕ → LoginAttemptTracker → LoginAttemptTracker
  fail now m = register_failure (k ∷ []) now m

  first_failure :
      (now : ℕ) (m : LoginAttemptTracker)
      → IsMap m
      → get m k ≡ none
      → get (fail now m) k ≡ some (after_failures (now ∷ []) now)
  unfolding fail_record
  first_failure now m u clean =
      get-register_failure now m k u ∙ ap (λ o. some (fail_record o now)) clean

  next_failure :
      (now last : ℕ) (failures : List ℕ) (m : LoginAttemptTracker)
      → IsMap m
      → get m k ≡ some (after_failures failures last)
      → All (λ f. now < f + failure_window_ms) failures
      → now < last + max_lockout_ms
      → length failures < 4
      → get (fail now m) k ≡ some (after_failures (failures ++ now ∷ []) now)
  next_failure now last failures m u known recent live few =
      get-register_failure now m k u
      ∙ ap (λ o. some (fail_record o now)) known
      ∙ ap some (
          ground
            (arith, fail_again now last failures recent live, length-append failures (now ∷ [])))

  fifth_failure :
      (now last : ℕ) (failures : List ℕ) (m : LoginAttemptTracker)
      → IsMap m
      → get m k ≡ some (after_failures failures last)
      → All (λ f. now < f + failure_window_ms) failures
      → now < last + max_lockout_ms
      → length failures ≡ 4
      → locked_until_of (get (fail now m) k) ≡ now + base_lockout_ms
  unfolding lockout_duration_ms
  fifth_failure now last failures m u known recent live few =
      ap locked_until_of (get-register_failure now m k u ∙ ap (λ o. some (fail_record o now)) known)
      ∙ ground (arith, fail_again now last failures recent live, length-append failures (now ∷ []))

  -- For a key with no record, and five failures in order within fifteen minutes: after four of them
  -- it is not locked at any time, and after the fifth it is locked exactly until fifteen minutes
  -- later.
  pub is_locked-five_failures :
      (t1 t2 t3 t4 t5 t : ℕ) (m : LoginAttemptTracker)
      → IsMap m
      → get m k ≡ none
      → (t1 ≤ t2) × (t2 ≤ t3) × (t3 ≤ t4) × (t4 ≤ t5)
      → t5 < t1 + failure_window_ms
      → let four = fail t4 (fail t3 (fail t2 (fail t1 m))) in
        (is_locked (k ∷ []) t four ≡ false)
        × (is_locked (k ∷ []) t (fail t5 four) ≡ ltb t (t5 + base_lockout_ms))
  unfolding is_locked
  is_locked-five_failures t1 t2 t3 t4 t5 t m u clean order window =
      let u1 = fail-IsMap t1 k m u in
      let u2 = fail-IsMap t2 k _ u1 in
      let u3 = fail-IsMap t3 k _ u2 in
      let e1 = first_failure t1 m u clean in
      let e2 = next_failure t2 t1 (t1 ∷ []) _ u1 e1 (omega arith) (omega arith) (omega arith) in
      let e3 =
        next_failure t3 t2 (t1 ∷ t2 ∷ []) _ u2 e2 (omega arith) (omega arith) (omega arith) in
      let e4 =
        next_failure t4 t3 (t1 ∷ t2 ∷ t3 ∷ []) _ u3 e3 (omega arith) (omega arith) (omega arith) in
      let e5 =
        fifth_failure t5 t4 (t1 ∷ t2 ∷ t3 ∷ t4 ∷ []) _ (fail-IsMap t4 k _ u3) e4 (omega arith)
          (omega arith) refl in
      (rw e4 (ground arith), rw e5 (ground arith))

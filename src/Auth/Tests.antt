-- ===== src/Auth/Tests.antt =====
-- The sessions and the lockouts at concrete inputs.
use slomp.Prelude.{
  ok, Result, length, ◌==◌, nat_eq, ℕ, ◌+◌, ◌*◌, ◌≡◌, ◌<◌, refl, inr, ◌⊎◌, List, false, none, some,
  [], ◌∷◌, arith, ltb, codes,
}
use slomp.Database.{list_table}
use slomp.Auth.LoginAttempts.{
  Text, login_attempt_keys, is_locked, base_lockout_ms, register_failure,
}
use slomp.Auth.LoginAttempts.Lockout.{history, failed, succeeded, is_locked-history}
use slomp.Auth.LoginAttempts.FiveFailures.{is_locked-five_failures}
use slomp.Auth.Login.{
  Passwords, AuthState, Administrator, AuthError, AuthenticatedUser, login, change_password,
  check_password_policy, byte_length,
}
use slomp.Auth.Login.Access.{IsOpenedFor, login_ok, login_locked}
use slomp.Auth.Login.Password.{clear_option, change_password_sessions}
use slomp.Auth.Sessions.{
  SessionPolicy, SessionOwner, RefreshToken, IssuedSession, Fresh, find_by_hash, start, rotate,
  claim, issue, find_active_owner, access_token_expiry, refresh_token_expiry,
}
use slomp.Auth.Sessions.History.{logs_in, refreshes, run}
use slomp.Auth.Sessions.Closed.{rotate-revoked_closes}
use slomp.Auth.Sessions.Replay.{rotate_twice}
use slomp.Auth.Sessions.Expiry.{start_ends}

abbrev policy : SessionPolicy
policy = record {
  access_token_ttl_ms = 900000;
  idle_timeout_ms = 1800000;
  max_session_ms = 28800000;
}

abbrev twice : ℕ → ℕ
twice x = x * 2

abbrev ana : SessionOwner
ana = record { id = 7; email = codes "ana@slomp.co"; must_change_password = false }

abbrev token : ℕ → RefreshToken
token id = record {
  id = id;
  token_hash = 100 * 2;
  family_id = 50;
  administrator = ana;
  expires_at = 1800000;
  session_expires_at = 28800000;
  revoked_at = none;
}

abbrev used_token : RefreshToken
used_token = record (token 1) { revoked_at = some 5 }

abbrev fresh : ℕ → Fresh
fresh n = record { refresh_token = 100 + n; family_id = 50 + n; row_id = 1 + n }

abbrev renewed : IssuedSession
renewed = record {
  sub = 7;
  email = codes "ana@slomp.co";
  sid = 50;
  expires_in = 900;
  idle_timeout_seconds = 1800;
  session_expires_at = 28800000;
  must_change_password = false;
  refresh_token = 101;
  refresh_token_expires_at = 1801000;
}

rotated :
    (rotate (list_table RefreshToken) policy twice (fresh 1) 100 1000 (token 1 ∷ [])).1
    ≡ some renewed
unfolding rotate issue find_by_hash claim access_token_expiry refresh_token_expiry
rotated = refl

found : find_by_hash (list_table RefreshToken) policy twice 100 (token 1 ∷ []) ≡ some (token 1)
unfolding find_by_hash
found = refl

found_used :
    find_by_hash (list_table RefreshToken) policy twice 100 (used_token ∷ []) ≡ some used_token
unfolding find_by_hash
found_used = refl

-- The new token is exchanged in turn before the old one is presented again.
abbrev between : List RefreshToken
between =
    run (list_table RefreshToken) policy twice
      (rotate (list_table RefreshToken) policy twice (fresh 1) 100 1000 (token 1 ∷ [])).0
      (refreshes (fresh 3) 101 1500 ∷ [])

rotate_twice_example :
    ((rotate (list_table RefreshToken) policy twice (fresh 2) 100 2000 between).1 ≡ none)
    × ((find_by_hash (list_table RefreshToken) policy twice 100 between ≡ none)
        ⊎ (find_active_owner (list_table RefreshToken) policy twice 7 50 4000 (
              run
                (list_table RefreshToken)
                policy
                twice
                (rotate (list_table RefreshToken) policy twice (fresh 2) 100 2000 between).0
                (refreshes (fresh 4) 103 3000 ∷ []))
            ≡ none))
rotate_twice_example =
    rotate_twice (list_table RefreshToken) policy twice (fresh 1) (fresh 2) 100 1000 2000
      (token 1 ∷ []) renewed (refreshes (fresh 3) 101 1500 ∷ []) (refreshes (fresh 4) 103 3000 ∷ [])
      7 4000 (tt, tt) rotated (λ e. absurd (omega arith)) ((λ e. absurd (omega arith)), tt) (tt, tt)

rotate-revoked_closes_example :
    ((rotate (list_table RefreshToken) policy twice (fresh 1) 100 1000 (used_token ∷ [])).1 ≡ none)
    × (find_active_owner (list_table RefreshToken) policy twice 7 50 2000 (
          run
            (list_table RefreshToken)
            policy
            twice
            (rotate (list_table RefreshToken) policy twice (fresh 1) 100 1000 (used_token ∷ [])).0
            (logs_in (fresh 9) ana 1500 ∷ []))
        ≡ none)
rotate-revoked_closes_example =
    rotate-revoked_closes (list_table RefreshToken) policy twice (fresh 1) 100 1000
      (used_token ∷ []) used_token (logs_in (fresh 9) ana 1500 ∷ []) 7 2000 found_used (λ e. cc)
      ((λ e. absurd (omega arith)), tt)

start_ends_example :
    find_active_owner (list_table RefreshToken) policy twice 7 51 28801000 (
      run
        (list_table RefreshToken)
        policy
        twice
        (start (list_table RefreshToken) policy twice (fresh 1) ana 1000 (token 1 ∷ [])).0
        (refreshes (fresh 2) 101 2000 ∷ []))
    ≡ none
start_ends_example =
    start_ends (list_table RefreshToken) policy twice (fresh 1) ana 1000 (token 1 ∷ [])
      ((λ e. absurd (omega arith)), tt) (refreshes (fresh 2) 101 2000 ∷ []) 7 28801000 (tt, tt)
      (omega arith)

abbrev ip : Text
ip = codes "ip:10.0.0.1"

is_locked-history_example :
    is_locked (ip ∷ []) 3700000 (history [] (failed 100 (ip ∷ []) ∷ succeeded 90 (ip ∷ []) ∷ []))
    ≡ false
is_locked-history_example =
    is_locked-history 100 3700000 (failed 100 (ip ∷ []) ∷ succeeded 90 (ip ∷ []) ∷ []) (ip ∷ [])
      (omega arith, (omega arith, tt)) (omega arith)

is_locked-five_failures_example :
    let four = register_failure (ip ∷ []) 4 (
      register_failure
        (ip ∷ [])
        3
        (register_failure (ip ∷ []) 2 (register_failure (ip ∷ []) 1 []))) in
    (is_locked (ip ∷ []) 900004 four ≡ false)
    × (is_locked (ip ∷ []) 900004 (register_failure (ip ∷ []) 5 four)
        ≡ ltb 900004 (5 + base_lockout_ms))
is_locked-five_failures_example =
    is_locked-five_failures ip 1 2 3 4 5 900004 [] tt refl
      (omega arith, omega arith, omega arith, omega arith) (omega arith)

-- A hash that is the length of the password.
abbrev lengths : Passwords
lengths = record {
  compare = λ password hash. length password == hash;
  hash = λ password. length password;
  dummy_hash = 0;
  is_common_password = λ password. false;
  normalize = λ email. email;
}

abbrev auth_state : AuthState (list_table RefreshToken)
auth_state = record {
  administrators = record { owner = ana; password_hash = 5 } ∷ [];
  attempts = [];
  tokens = token 1 ∷ record (token 2) { family_id = 60 } ∷ [];
}

abbrev opened : IssuedSession
opened = (start (list_table RefreshToken) policy twice (fresh 1) ana 1000 auth_state.tokens).1

logged_in :
    (login
      (list_table RefreshToken)
      policy
      twice
      lengths
      (fresh 1)
      (codes "ana@slomp.co")
      (codes "clave")
      (codes "10.0.0.1")
      1000
      auth_state).1
    ≡ ok opened
unfolding login is_locked login_attempt_keys
logged_in = refl

unexpired_then : 1500 < refresh_token_expiry policy 1000 (1000 + policy.max_session_ms)
unfolding refresh_token_expiry
unexpired_then = omega arith

login_ok_example :
    (admin : Administrator) × IsOpenedFor
      (list_table RefreshToken)
      policy
      twice
      lengths
      (fresh 1)
      (codes "ana@slomp.co")
      (codes "clave")
      (codes "10.0.0.1")
      1000
      auth_state
      opened
      1500
      admin
login_ok_example =
    login_ok (list_table RefreshToken) policy twice lengths (fresh 1) (codes "ana@slomp.co")
      (codes "clave") (codes "10.0.0.1") 1000 auth_state 1500
      ((λ e. absurd (omega arith)), ((λ e. absurd (omega arith)), tt)) unexpired_then opened
      logged_in

abbrev locked_state : AuthState (list_table RefreshToken)
locked_state = record auth_state {
  attempts =
      (
        codes "ip:10.0.0.1",
        record { failures = []; locked_until = 900005; lockouts = 1; last_activity = 5 },
      )
      ∷ [];
}

abbrev locked_answer : AuthState (list_table RefreshToken) × Result AuthError IssuedSession
locked_answer =
    login (list_table RefreshToken) policy twice lengths (fresh 1) (codes "ana@slomp.co")
      (codes "clave") (codes "10.0.0.1") 1000 locked_state

login_locked_example :
    (locked_answer.0 ≡ locked_state)
    × (locked_answer.1
        ≡ (login
            (list_table RefreshToken)
            policy
            twice
            lengths
            (fresh 2)
            (codes "ana@slomp.co")
            (codes "mala")
            (codes "10.0.0.2")
            2000
            auth_state).1)
unfolding is_locked login_attempt_keys
login_locked_example =
    login_locked (list_table RefreshToken) policy twice lengths (fresh 1) (fresh 2)
      (codes "ana@slomp.co") (codes "clave") (codes "10.0.0.1") (codes "ana@slomp.co")
      (codes "mala") (codes "10.0.0.2") 1000 2000 locked_state auth_state refl
      (inr (record { owner = ana; password_hash = 5 }, refl, refl))

abbrev user : AuthenticatedUser
user = record { id = 7; email = codes "ana@slomp.co"; session_id = 50 }

abbrev change : AuthState (list_table RefreshToken) × Result AuthError (Unit {0})
change =
    change_password (list_table RefreshToken) policy twice lengths user (codes "clave")
      (codes "doce letras y más") (codes "10.0.0.1") 1000 auth_state

changed_password : change.1 ≡ ok tt
unfolding change_password is_locked login_attempt_keys check_password_policy byte_length
changed_password = refl

change_password_sessions_example :
    (find_active_owner (list_table RefreshToken) policy twice 7 60 2000 change.0.tokens ≡ none)
    × (find_active_owner (list_table RefreshToken) policy twice 7 50 2000 change.0.tokens
        ≡ clear_option
            (find_active_owner (list_table RefreshToken) policy twice 7 50 2000 auth_state.tokens))
change_password_sessions_example =
    change_password_sessions (list_table RefreshToken) policy twice lengths user (codes "clave")
      (codes "doce letras y más") (codes "10.0.0.1") 1000 auth_state 60 2000
      (λ e. absurd (omega arith)) changed_password

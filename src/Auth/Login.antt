-- ===== src/Auth/Login.antt =====
-- apps/backend/src/auth/auth.service.ts and password-policy.ts: login, refresh, logout and the change
-- of a password over the tracker of LoginAttempts and the sessions of Sessions. bcrypt, the list of
-- common passwords and the normalized e-mail are parameters; a text is the list of its code points.
pub mod Access
pub mod Password
use slomp.Prelude.{
  ℕ, ◌+◌, ◌*◌, Bool, true, false, ◌&&◌, ◌||◌, not, Option, none, some, List, [], ◌∷◌, ◌++◌,
  if◌then◌else◌, ◌==◌, nat_eq, list_eq, Eq, find, is_none, length, ltb, Result, ok, err,
}
use slomp.Database.{Table, update_where}
use slomp.Auth.LoginAttempts.{
  Text, LoginAttemptTracker, login_attempt_keys, is_locked, register_failure, register_success,
}
use slomp.Auth.Sessions.{
  SessionPolicy, SessionOwner, RefreshToken, IssuedSession, Fresh, revoke_at, start, rotate, revoke,
}

abbrev pub min_password_length : ℕ
min_password_length = 12

abbrev pub max_password_bytes : ℕ
max_password_bytes = 72

pub data PasswordChangeViolation : Type 0 where
  too_short too_long common same_as_current : PasswordChangeViolation

-- The bytes of a code point in UTF-8.
abbrev pub utf8_bytes : ℕ → ℕ
utf8_bytes c = if ltb c 128 then 1 else if ltb c 2048 then 2 else if ltb c 65536 then 3 else 4

unfoldable pub byte_length : Text → ℕ
byte_length [] = 0
byte_length (c ∷ cs) = utf8_bytes c + byte_length cs

abbrev pub push_if : Bool → PasswordChangeViolation → List PasswordChangeViolation
push_if true v = v ∷ []
push_if false v = []

unfoldable pub check_password_policy : (Text → Bool) → Text → List PasswordChangeViolation
check_password_policy is_common_password password =
    push_if (ltb (length password) min_password_length) too_short
    ++ push_if (ltb max_password_bytes (byte_length password)) too_long
    ++ push_if (is_common_password password) common

pub record Administrator : Type 0 where
  pub owner : SessionOwner
  pub password_hash : ℕ

pub data AuthError : Type 0 where
  auth_invalid_credentials auth_session_invalid auth_current_password_invalid : AuthError
  auth_password_policy_violation : List PasswordChangeViolation → AuthError

pub record AuthenticatedUser : Type 0 where
  pub id : ℕ
  pub email : Text
  pub session_id : ℕ

-- bcrypt and the tables that the code calls.
pub record Passwords : Type 0 where
  pub compare : Text → ℕ → Bool
  pub hash : Text → ℕ
  pub dummy_hash : ℕ
  pub is_common_password : Text → Bool
  pub normalize : Text → Text

abbrev pub hash_of : Passwords → Option Administrator → ℕ
hash_of b none = b.dummy_hash
hash_of b (some admin) = admin.password_hash

abbrev pub is_other_session : ℕ → ℕ → RefreshToken → Bool
is_other_session administrator_id session_id r =
    r.administrator.id == administrator_id
    && is_none r.revoked_at
    && not (r.family_id == session_id)

abbrev pub cleared : SessionOwner → SessionOwner
cleared owner = record owner { must_change_password = false }

-- The administrator that a row of the table is joined to, after its update.
abbrev pub clear_owner : ℕ → RefreshToken → RefreshToken
clear_owner administrator_id r =
    if r.administrator.id == administrator_id
    then record r { administrator = cleared r.administrator }
    else r

abbrev pub find_by_email : Text → List Administrator → Option Administrator
find_by_email email = find (λ a. a.owner.email == email)

abbrev pub session_or_error : Option IssuedSession → Result AuthError IssuedSession
session_or_error none = err auth_session_invalid
session_or_error (some session) = ok session

module _ (t : Table RefreshToken) where
  open t use {State}

  pub record AuthState : Type 0 where
    pub administrators : List Administrator
    pub attempts : LoginAttemptTracker
    pub tokens : State

module _ (t : Table RefreshToken) (policy : SessionPolicy) (hash : ℕ → ℕ) (b : Passwords) where
  open t use {update_many}

  -- The login with the administrator that was found.
  abbrev pub login_as :
      Option Administrator
      → Fresh
      → List Text
      → Text
      → ℕ
      → AuthState t
      → AuthState t × Result AuthError IssuedSession
  login_as found fresh keys password now s =
      let locked = is_locked keys now s.attempts in
      let failed = record s { attempts = register_failure keys now s.attempts } in
      elim found [
        | none ↦ (if not locked then failed else s, err auth_invalid_credentials)
        | some admin ↦
            if locked || not (b.compare password (hash_of b (some admin)))
            then (if not locked then failed else s, err auth_invalid_credentials)
            else (
              record s {
                attempts = register_success keys s.attempts;
                tokens = (start t policy hash fresh admin.owner now s.tokens).0;
              },
              ok (start t policy hash fresh admin.owner now s.tokens).1,
            )
      ]

  unfoldable pub login :
      Fresh → Text → Text → Text → ℕ → AuthState t → AuthState t × Result AuthError IssuedSession
  login fresh email password ip now s =
      login_as (find_by_email email s.administrators) fresh
        (login_attempt_keys b.normalize email ip) password now s

  unfoldable pub refresh :
      Fresh → Option ℕ → ℕ → AuthState t → AuthState t × Result AuthError IssuedSession
  refresh fresh none now s = (s, err auth_session_invalid)
  refresh fresh (some refresh_token) now s = (
    record s { tokens = (rotate t policy hash fresh refresh_token now s.tokens).0 },
    session_or_error (rotate t policy hash fresh refresh_token now s.tokens).1,
  )

  unfoldable pub logout : Option ℕ → ℕ → AuthState t → AuthState t
  logout none now s = s
  logout (some refresh_token) now s = record s {
    tokens = revoke t policy hash refresh_token now s.tokens;
  }

  abbrev pub set_password : ℕ → Text → Administrator → Administrator
  set_password id password a =
      if a.owner.id == id
      then record a { owner = cleared a.owner; password_hash = b.hash password }
      else a

  -- The last transaction of changePassword; the second update is the join with the administrator.
  unfoldable pub write_password : ℕ → ℕ → Text → ℕ → AuthState t → AuthState t
  write_password id session_id new_password now s = record s {
    administrators =
        update_where (λ a. a.owner.id == id) (set_password id new_password) s.administrators;
    tokens =
        (update_many (λ r. r.administrator.id == id) (clear_owner id)
          (update_many (is_other_session id session_id) (revoke_at now) s.tokens).0).0;
  }

  abbrev pub violations_of : Administrator → Text → List PasswordChangeViolation
  violations_of admin new_password =
      check_password_policy b.is_common_password new_password
      ++ push_if (b.compare new_password admin.password_hash) same_as_current

  abbrev pub change_password_of :
      Option Administrator
      → AuthenticatedUser
      → List Text
      → Text
      → Text
      → ℕ
      → AuthState t
      → AuthState t × Result AuthError (Unit {0})
  change_password_of none user keys current_password new_password now s =
      (s, err auth_session_invalid)
  change_password_of (some admin) user keys current_password new_password now s =
      let locked = is_locked keys now s.attempts in
      let failed = record s { attempts = register_failure keys now s.attempts } in
      let cleared_attempts = record s { attempts = register_success keys s.attempts } in
      if locked || not (b.compare current_password admin.password_hash)
      then (if not locked then failed else s, err auth_current_password_invalid)
      else if ltb 0 (length (violations_of admin new_password))
      then (
        cleared_attempts,
        err (auth_password_policy_violation (violations_of admin new_password)),
      )
      else (write_password admin.owner.id user.session_id new_password now cleared_attempts, ok tt)

  unfoldable pub change_password :
      AuthenticatedUser
      → Text
      → Text
      → Text
      → ℕ
      → AuthState t
      → AuthState t × Result AuthError (Unit {0})
  unfolding check_password_policy
  change_password user current_password new_password ip now s =
      change_password_of (find (λ a. a.owner.id == user.id) s.administrators) user
        (login_attempt_keys b.normalize user.email ip) current_password new_password now s

-- ===== src/Auth/Sessions.antt =====
-- apps/backend/src/auth/session-policy.ts and session.service.ts. The table of refresh tokens, the
-- hash, the random values and the signing of the access token are parameters: a call takes the clock
-- (`now`) and the fresh values that it draws, and returns the new state of the table.
pub mod History
pub mod Closed
pub mod Rotation
pub mod Expiry
pub mod Replay
use slomp.Prelude.{
  ℕ, ◌+◌, ◌-◌, ◌*◌, ◌/◌, min, max, Bool, true, false, ◌&&◌, not, Option, none, some, List, [], ◌∷◌,
  if◌then◌else◌, ltb, leb, ◌==◌, nat_eq, Eq, is_none, is_some, find, pos, sub_ℕ, ℤ, filter, length,
}
use slomp.Database.{Table}

pub record SessionPolicy : Type 0 where
  pub access_token_ttl_ms : ℕ
  pub idle_timeout_ms : ℕ
  pub max_session_ms : ℕ

abbrev pub default_access_token_ttl_minutes : ℕ
default_access_token_ttl_minutes = 15

abbrev pub default_session_idle_timeout_minutes : ℕ
default_session_idle_timeout_minutes = 30

abbrev pub default_session_max_hours : ℕ
default_session_max_hours = 8

-- `Number(value)` of an environment variable: none where it is missing or no finite number. A
-- value is a natural number here; zero stands for all that is not positive.
pub positive_number : Option ℕ → ℕ → ℕ
positive_number none fallback = fallback
positive_number (some parsed) fallback = if ltb 0 parsed then parsed else fallback

unfoldable pub session_policy_from_env : Option ℕ → Option ℕ → Option ℕ → SessionPolicy
unfolding positive_number
session_policy_from_env ttl idle max_hours = record {
  access_token_ttl_ms = positive_number ttl default_access_token_ttl_minutes * 60000;
  idle_timeout_ms = positive_number idle default_session_idle_timeout_minutes * 60000;
  max_session_ms = positive_number max_hours default_session_max_hours * 3600000;
}

unfoldable pub refresh_token_expiry : SessionPolicy → ℕ → ℕ → ℕ
refresh_token_expiry policy now session_expires_at =
    min (now + policy.idle_timeout_ms) session_expires_at

unfoldable pub access_token_expiry : SessionPolicy → ℕ → ℕ → ℕ
access_token_expiry policy now session_expires_at =
    min (now + policy.access_token_ttl_ms) session_expires_at

pub record SessionOwner : Type 0 where
  pub id : ℕ
  pub email : List ℕ
  pub must_change_password : Bool

-- A row of the table, with the administrator that it is joined to.
pub record RefreshToken : Type 0 where
  pub id : ℕ
  pub token_hash : ℕ
  pub family_id : ℕ
  pub administrator : SessionOwner
  pub expires_at : ℕ
  pub session_expires_at : ℕ
  pub revoked_at : Option ℕ

pub record IssuedSession : Type 0 where
  -- the payload that is signed: sub, email and sid
  pub sub : ℕ
  pub email : List ℕ
  pub sid : ℕ
  pub expires_in : ℕ
  pub idle_timeout_seconds : ℕ
  pub session_expires_at : ℕ
  pub must_change_password : Bool
  pub refresh_token : ℕ
  pub refresh_token_expires_at : ℕ

-- What a call draws from the random source and the database: a refresh token, a family id (for
-- `randomUUID`) and the id of the new row.
pub record Fresh : Type 0 where
  pub refresh_token : ℕ
  pub family_id : ℕ
  pub row_id : ℕ

-- `live?.administrator ?? null`
abbrev pub owner_of : Option RefreshToken → Option SessionOwner
owner_of none = none
owner_of (some r) = some r.administrator

-- A where clause of session.service.ts as a test on rows.
abbrev pub is_live_in_family : ℕ → RefreshToken → Bool
is_live_in_family family_id r = r.family_id == family_id && is_none r.revoked_at

abbrev pub revoke_at : ℕ → RefreshToken → RefreshToken
revoke_at now r = record r { revoked_at = some now }

module _ (t : Table RefreshToken) (policy : SessionPolicy) (hash : ℕ → ℕ) where
  open t use {State, rows, update_many, create_many, delete_many}

  unfoldable pub find_by_hash : ℕ → State → Option RefreshToken
  find_by_hash refresh_token s = find (λ r. r.token_hash == hash refresh_token) (rows s)

  unfoldable pub revoke_family : ℕ → ℕ → State → State
  revoke_family family_id now s = (update_many (is_live_in_family family_id) (revoke_at now) s).0

  abbrev pub new_row : Fresh → SessionOwner → ℕ → ℕ → ℕ → RefreshToken
  new_row fresh admin family_id now session_expires_at = record {
    id = fresh.row_id;
    token_hash = hash fresh.refresh_token;
    family_id = family_id;
    administrator = admin;
    expires_at = refresh_token_expiry policy now session_expires_at;
    session_expires_at = session_expires_at;
    revoked_at = none;
  }

  -- `Math.max(1, Math.floor((accessTokenExpiry(…) - now) / 1000))`: a difference below zero gives 1.
  abbrev pub expires_in_of : ℕ → ℕ → ℕ
  expires_in_of now session_expires_at =
      max 1 ((access_token_expiry policy now session_expires_at - now) / 1000)

  unfoldable pub issue : Fresh → SessionOwner → ℕ → ℕ → ℕ → State → State × IssuedSession
  issue fresh admin family_id now session_expires_at s = (
    create_many (new_row fresh admin family_id now session_expires_at ∷ []) s,
    record {
      sub = admin.id;
      email = admin.email;
      sid = family_id;
      expires_in = expires_in_of now session_expires_at;
      idle_timeout_seconds = policy.idle_timeout_ms / 1000;
      session_expires_at = session_expires_at;
      must_change_password = admin.must_change_password;
      refresh_token = fresh.refresh_token;
      refresh_token_expires_at = refresh_token_expiry policy now session_expires_at;
    },
  )

  abbrev pub is_expired_of : SessionOwner → ℕ → RefreshToken → Bool
  is_expired_of admin now r = r.administrator.id == admin.id && ltb r.expires_at now

  unfoldable pub start : Fresh → SessionOwner → ℕ → State → State × IssuedSession
  unfolding issue
  start fresh admin now s =
      issue fresh admin fresh.family_id now (now + policy.max_session_ms)
        (delete_many (is_expired_of admin now) s)

  -- The conditional update of rotate, after the row `current` was read: another request may have
  -- changed the table in between.
  unfoldable pub claim : Fresh → RefreshToken → ℕ → State → State × Option IssuedSession
  unfolding issue revoke_family
  claim fresh current now s =
      let (s', count) =
        update_many (λ r. r.id == current.id && is_none r.revoked_at) (revoke_at now) s in
      if not (count == 1)
      then (revoke_family current.family_id now s', none)
      else (let (s'', session) =
            issue fresh current.administrator current.family_id now current.session_expires_at s' in
          (s'', some session))

  unfoldable pub rotate_row : Fresh → Option RefreshToken → ℕ → State → State × Option IssuedSession
  unfolding claim
  rotate_row fresh none now s = (s, none)
  rotate_row fresh (some current) now s =
      if is_some current.revoked_at
      then (revoke_family current.family_id now s, none)
      else if leb current.expires_at now
      then (s, none)
      else claim fresh current now s

  unfoldable pub rotate : Fresh → ℕ → ℕ → State → State × Option IssuedSession
  unfolding rotate_row find_by_hash
  rotate fresh refresh_token now s = rotate_row fresh (find_by_hash refresh_token s) now s

  abbrev revoke_row : Option RefreshToken → ℕ → State → State
  revoke_row none now s = s
  revoke_row (some current) now s = revoke_family current.family_id now s

  unfoldable pub revoke : ℕ → ℕ → State → State
  unfolding revoke_family find_by_hash
  revoke refresh_token now s = revoke_row (find_by_hash refresh_token s) now s

  abbrev pub is_active : ℕ → ℕ → ℕ → RefreshToken → Bool
  is_active sub sid now r =
      r.family_id == sid
      && r.administrator.id == sub
      && is_none r.revoked_at
      && ltb now r.expires_at

  unfoldable pub find_active_owner : ℕ → ℕ → ℕ → State → Option SessionOwner
  find_active_owner sub sid now s = owner_of (find (is_active sub sid now) (rows s))

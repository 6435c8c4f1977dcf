-- ===== src/Auth/Login/Access.antt =====
-- Who gets a session from a login, and what a locked login answers.
use slomp.Prelude.{
  ℕ, ◌+◌, ◌<◌, ◌≡◌, ◌≢◌, refl, sym, ap, ◌∙◌, true, false, none, some, List, Result, ok, err, arith,
  Bool-cases, Option-cases, inl, inr, ◌⊎◌,
}
use slomp.Database.{Table}
use slomp.Database.Rows.{Each}
use slomp.Auth.LoginAttempts.{Text, login_attempt_keys, is_locked, register_success}
use slomp.Auth.Sessions.{
  SessionPolicy, SessionOwner, RefreshToken, IssuedSession, Fresh, start, issue, find_active_owner,
  refresh_token_expiry,
}
use slomp.Auth.Sessions.Expiry.{start_opens}
use slomp.Auth.Login.{
  Passwords, AuthState, Administrator, AuthError, auth_invalid_credentials, login, find_by_email,
}

-- An administrator with that e-mail and that password, while none of the keys is locked.
pub record IsGranted (t : Table RefreshToken) (b : Passwords) (email password ip : Text) (now : ℕ)
    (s : AuthState t) (admin : Administrator) : Type 0 where
  pub unlocked : is_locked (login_attempt_keys b.normalize email ip) now s.attempts ≡ false
  pub found : find_by_email email s.administrators ≡ some admin
  pub matches : b.compare password admin.password_hash ≡ true

ok_injective : {x y : IssuedSession} → ◌≡◌ {A = Result AuthError _} (ok x) (ok y) → x ≡ y
ok_injective e = cc

module _ (t : Table RefreshToken) (policy : SessionPolicy) (hash : ℕ → ℕ) (b : Passwords)
    (fresh : Fresh) (email password ip : Text) (now : ℕ) (s : AuthState t) where
  abbrev keys : List Text
  keys = login_attempt_keys b.normalize email ip

  abbrev answer_of : AuthState t × Result AuthError IssuedSession
  answer_of = login t policy hash b fresh email password ip now s

  -- The session of a login is that of an administrator who was granted it: its row is stored, the
  -- failures of the keys are forgotten, nothing else changes, and the administrator is behind the
  -- session at that moment.
  pub record IsOpenedFor (session : IssuedSession) (later : ℕ) (admin : Administrator)
      : Type 0 where
    pub granted : IsGranted t b email password ip now s admin
    pub issued : session ≡ (start t policy hash fresh admin.owner now s.tokens).1
    pub stored : answer_of.0 ≡ record s {
      attempts = register_success keys s.attempts;
      tokens = (start t policy hash fresh admin.owner now s.tokens).0;
    }
    pub owned :
        find_active_owner t policy hash admin.owner.id session.sid later answer_of.0.tokens
        ≡ some admin.owner

  start-sid :
      (owner : SessionOwner)
      → (start t policy hash fresh owner now s.tokens).1.sid ≡ fresh.family_id
  unfolding start issue
  start-sid owner = refl

  module _ (later : ℕ) (unused : Each t (λ r. r.family_id ≢ fresh.family_id) s.tokens)
      (open_then : later < refresh_token_expiry policy now (now + policy.max_session_ms)) where
    granted_of :
        (session : IssuedSession) (admin : Administrator)
        → find_by_email email s.administrators ≡ some admin
        → answer_of.1 ≡ ok session
        → IsOpenedFor session later admin
    unfolding login
    granted_of session admin found e = elim (Bool-cases (is_locked keys now s.attempts)) [
      | inl locked ↦ absurd (ground arith)
      | inr unlocked ↦ elim (Bool-cases (b.compare password admin.password_hash)) [
        | inr wrong ↦ absurd (ground arith)
        | inl right ↦
            let opened : answer_of.1 ≡ ok (start t policy hash fresh admin.owner now s.tokens).1 =
              rw (found, unlocked, right) refl in
            let issued = ok_injective (sym e ∙ opened) in
            let state : answer_of.0 ≡ record s {
              attempts = register_success keys s.attempts;
              tokens = (start t policy hash fresh admin.owner now s.tokens).0;
            } =
              rw (found, unlocked, right) refl in
            record {
              granted = record { unlocked = unlocked; found = found; matches = right };
              issued = issued;
              stored = state;
              owned =
                  rw (issued, state, start-sid admin.owner)
                    (start_opens t policy hash fresh admin.owner now s.tokens unused later
                      open_then);
            }
      ]
    ]

    -- Where the family drawn is new, a login that gives a session had the e-mail and the password
    -- of an administrator while neither the e-mail nor the address was locked. It stores the
    -- session of that administrator, who is behind it, in the state that the login leaves, until
    -- its refresh token expires, and it changes nothing else but the failures of the keys, which it
    -- forgets.
    pub login_ok :
        (session : IssuedSession)
        → answer_of.1 ≡ ok session
        → (admin : Administrator) × IsOpenedFor session later admin
    unfolding login
    login_ok session e = elim (Option-cases (find_by_email email s.administrators)) [
      | inl missing ↦ absurd (ground arith)
      | inr (admin, found) ↦ (admin, granted_of session admin found e)
    ]

module _ (t : Table RefreshToken) (policy : SessionPolicy) (hash : ℕ → ℕ) (b : Passwords) where
  -- No administrator has the e-mail, or it has another password.
  abbrev pub IsWrong : Text → Text → AuthState t → Type 0
  IsWrong email password s =
      (find_by_email email s.administrators ≡ none)
      ⊎ ((admin : Administrator) × (find_by_email email s.administrators ≡ some admin)
          × (b.compare password admin.password_hash ≡ false))

  login-locked :
      (fresh : Fresh) (email password ip : Text) (now : ℕ) (s : AuthState t)
      → is_locked (login_attempt_keys b.normalize email ip) now s.attempts ≡ true
      → login t policy hash b fresh email password ip now s ≡ (s, err auth_invalid_credentials)
  unfolding login
  login-locked fresh email password ip now s locked =
      elim (Option-cases (find_by_email email s.administrators)) [
        | inl missing ↦ rw (missing, locked) refl
        | inr (admin, found) ↦ rw (found, locked) refl
      ]

  login-wrong :
      (fresh : Fresh) (email password ip : Text) (now : ℕ) (s : AuthState t)
      → IsWrong email password s
      → (login t policy hash b fresh email password ip now s).1 ≡ err auth_invalid_credentials
  unfolding login
  login-wrong fresh email password ip now s (inl missing) = rw missing refl
  login-wrong fresh email password ip now s (inr (admin, found, wrong)) =
      elim (Bool-cases (is_locked (login_attempt_keys b.normalize email ip) now s.attempts)) [
        | inl locked ↦ rw (found, locked) refl
        | inr unlocked ↦ rw (found, unlocked, wrong) refl
      ]

  -- While one of its keys is locked, a login changes nothing, whatever the password, and its answer
  -- is the one that every login gets, at any moment and in any state, whose e-mail is unknown or
  -- whose password is wrong.
  pub login_locked :
      (fresh fresh' : Fresh) (email password ip email' password' ip' : Text) (now now' : ℕ)
      (s s' : AuthState t)
      → is_locked (login_attempt_keys b.normalize email ip) now s.attempts ≡ true
      → IsWrong email' password' s'
      → let answer = login t policy hash b fresh email password ip now s in
        (answer.0 ≡ s) × (answer.1 ≡ (login t policy hash b fresh' email' password' ip' now' s').1)
  login_locked fresh fresh' email password ip email' password' ip' now now' s s' locked wrong =
      let same = login-locked fresh email password ip now s locked in
      (
        ap (λ a. a.0) same,
        ap (λ a. a.1) same ∙ sym (login-wrong fresh' email' password' ip' now' s' wrong),
      )

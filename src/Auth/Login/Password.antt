-- ===== src/Auth/Login/Password.antt =====
-- A change of the password closes the other sessions of the account and keeps the one that makes it.
use slomp.Prelude.{
  ℕ, ◌≡◌, ◌≢◌, refl, ap, ◌∙◌, true, false, Option, none, some, List, [], ◌∷◌, find, ◌==◌, nat_eq,
  ltb, length, Result, ok, arith, All, Bool-cases, Option-cases, inl, inr,
}
use slomp.Database.{Table, update_where}
use slomp.Database.Rows.{find-none, find_test}
use slomp.Auth.LoginAttempts.{Text, login_attempt_keys, is_locked, register_success}
use slomp.Auth.Sessions.{
  SessionPolicy, SessionOwner, RefreshToken, revoke_at, is_active, owner_of, find_active_owner,
}
use slomp.Auth.Login.{
  Passwords, AuthState, Administrator, AuthError, AuthenticatedUser, is_other_session, clear_owner,
  cleared, write_password, violations_of, change_password,
}

-- The owner after the flag mustChangePassword is cleared.
abbrev pub clear_option : Option SessionOwner → Option SessionOwner
clear_option none = none
clear_option (some owner) = some (cleared owner)

length-zero : {A : Type 0} (xs : List A) → length xs ≡ 0 → xs ≡ []
length-zero [] h = refl
length-zero (x ∷ xs) h = absurd (omega arith)

module _ (t : Table RefreshToken) (policy : SessionPolicy) (hash : ℕ → ℕ) (b : Passwords) where
  open t use {rows, rows-update_many}

  -- The rows after the transaction.
  abbrev written : ℕ → ℕ → ℕ → List RefreshToken → List RefreshToken
  written id session_id now rs =
      update_where (λ r. r.administrator.id == id) (clear_owner id)
        (update_where (is_other_session id session_id) (revoke_at now) rs)

  others_closed :
      (id session_id sid now later : ℕ) (rs : List RefreshToken)
      → sid ≢ session_id
      → All (λ r. is_active t policy hash id sid later r ≡ false) (written id session_id now rs)
  others_closed id session_id sid now later [] other = tt
  others_closed id session_id sid now later (r ∷ rs) other =
      (ground arith, others_closed id session_id sid now later rs other)

  own_kept :
      (id session_id now later : ℕ) (rs : List RefreshToken)
      → owner_of (find (is_active t policy hash id session_id later) (written id session_id now rs))
        ≡ clear_option (owner_of (find (is_active t policy hash id session_id later) rs))
  own_kept id session_id now later [] = refl
  own_kept id session_id now later (r ∷ rs) = ground (arith, own_kept id session_id now later rs)

  rows-write_password :
      (id session_id : ℕ) (new_password : Text) (now : ℕ) (s : AuthState t)
      → rows (write_password t policy hash b id session_id new_password now s).tokens
        ≡ written id session_id now (rows s.tokens)
  unfolding write_password
  rows-write_password id session_id new_password now s =
      rw
        (
          rows-update_many (λ r. r.administrator.id == id) (clear_owner id) _,
          rows-update_many (is_other_session id session_id) (revoke_at now) s.tokens,
        )
        refl

  module _ (user : AuthenticatedUser) (current_password new_password ip : Text) (now : ℕ)
      (s : AuthState t) where
    abbrev changed : AuthState t × Result AuthError (Unit {0})
    changed = change_password t policy hash b user current_password new_password ip now s

    abbrev keys : List Text
    keys = login_attempt_keys b.normalize user.email ip

    -- What a change that succeeds has checked: the account, the lockout, both passwords.
    pub record IsChangeChecked (admin : Administrator) : Type 0 where
      pub found : find (λ a. a.owner.id == user.id) s.administrators ≡ some admin
      pub unlocked : is_locked keys now s.attempts ≡ false
      pub matches : b.compare current_password admin.password_hash ≡ true
      pub accepted : violations_of t policy hash b admin new_password ≡ []
      pub written_state :
          changed.0
          ≡ write_password t policy hash b user.id user.session_id new_password now
              (record s { attempts = register_success keys s.attempts })

    checked_of :
        (admin : Administrator)
        → find (λ a. a.owner.id == user.id) s.administrators ≡ some admin
        → changed.1 ≡ ok tt
        → IsChangeChecked admin
    unfolding change_password
    checked_of admin found e = elim (Bool-cases (is_locked keys now s.attempts)) [
      | inl locked ↦ absurd (ground arith)
      | inr unlocked ↦ elim (Bool-cases (b.compare current_password admin.password_hash)) [
        | inr wrong ↦ absurd (ground arith)
        | inl right ↦
            elim (Bool-cases (ltb 0 (length (violations_of t policy hash b admin new_password)))) [
              | inl refused ↦ absurd (ground arith)
              | inr accepted ↦
                  let same : admin.owner.id ≡ user.id =
                    ground (
                      arith,
                      find_test (λ a. a.owner.id == user.id) s.administrators admin found,
                    ) in
                  record {
                    found = found;
                    unlocked = unlocked;
                    matches = right;
                    accepted =
                        length-zero (violations_of t policy hash b admin new_password)
                          (ground arith);
                    written_state =
                        rw (found, unlocked, right, accepted)
                          (ap
                            (λ id.
                              write_password t policy hash b id user.session_id new_password now
                                (record s { attempts = register_success keys s.attempts }))
                            same);
                  }
            ]
      ]
    ]

    -- A change of the password that succeeds had the current password of an unlocked account and a
    -- new one without violations.
    change_password_ok : changed.1 ≡ ok tt → (admin : Administrator) × IsChangeChecked admin
    unfolding change_password
    change_password_ok e =
        elim (Option-cases (find (λ a. a.owner.id == user.id) s.administrators)) [
          | inl missing ↦ absurd (ground arith)
          | inr (admin, found) ↦ (admin, checked_of admin found e)
        ]

    -- After a change of the password that succeeds, nobody is behind any other session of the
    -- account, and the session that made the change has the owner that it had, whose flag
    -- mustChangePassword is cleared.
    pub change_password_sessions :
        (sid later : ℕ)
        → sid ≢ user.session_id
        → changed.1 ≡ ok tt
        → (find_active_owner t policy hash user.id sid later changed.0.tokens ≡ none)
          × (find_active_owner t policy hash user.id user.session_id later changed.0.tokens
              ≡ clear_option
                  (find_active_owner t policy hash user.id user.session_id later s.tokens))
    unfolding find_active_owner
    change_password_sessions sid later other e =
        let (admin, checked) = change_password_ok e in
        let after : rows changed.0.tokens ≡ written user.id user.session_id now (rows s.tokens) =
          ap (λ x. rows x.tokens) checked.written_state
          ∙ rows-write_password user.id user.session_id new_password now
              (record s { attempts = register_success keys s.attempts }) in
        (
          ap (λ rs. owner_of (find (is_active t policy hash user.id sid later) rs)) after
              ∙ ap owner_of (
                  find-none _ _
                    (others_closed user.id user.session_id sid now later (rows s.tokens) other)),
          ap (λ rs. owner_of (find (is_active t policy hash user.id user.session_id later) rs))
                after
              ∙ own_kept user.id user.session_id now later (rows s.tokens),
        )

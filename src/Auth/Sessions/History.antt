-- ===== src/Auth/Sessions/History.antt =====
-- A history of sessions: what every row satisfies stays so through logins, refreshes and logouts.
use slomp.Prelude.{
  ℕ, ◌+◌, ◌≡◌, refl, ◌&&◌, Option, none, some, List, [], ◌∷◌, arith, is_some, is_none, leb, All,
  Bool-cases, inl, inr, ◌==◌, nat_eq,
}
use slomp.Database.{Table}
use slomp.Database.Rows.{find-All, Each, Each-update_many, Each-create_many, Each-delete_many}
use slomp.Auth.Sessions.{
  RefreshToken, SessionOwner, SessionPolicy, Fresh, is_live_in_family, revoke_at, new_row,
  find_by_hash, revoke_family, start, claim, rotate_row, rotate, revoke, is_expired_of, revoke_row,
}

-- Any values.
abbrev pub AnyFresh : Fresh → Type 0
AnyFresh fresh = Unit

pub data Event : Type 0 where
  logs_in : Fresh → SessionOwner → ℕ → Event
  refreshes : Fresh → ℕ → ℕ → Event
  logs_out : ℕ → ℕ → Event

module _ (t : Table RefreshToken) (policy : SessionPolicy) (hash : ℕ → ℕ) where
  open t use {State, rows, update_many}

  abbrev pub step : State → Event → State
  step s (logs_in fresh admin now) = (start t policy hash fresh admin now s).0
  step s (refreshes fresh refresh_token now) = (rotate t policy hash fresh refresh_token now s).0
  step s (logs_out refresh_token now) = revoke t policy hash refresh_token now s

  pub run : State → List Event → State
  run s [] = s
  run s (e ∷ es) = run (step s e) es

  -- A property of rows that revoking keeps, and that a new row has in the session of an unrevoked
  -- row that has it, where the values drawn for it satisfy `F`.
  pub record IsKept (F : Fresh → Type 0) (P : RefreshToken → Type 0) : Type 0 where
    pub revoked : (r : RefreshToken) (now : ℕ) → P r → P (revoke_at now r)
    pub renewed :
        (fresh : Fresh) (r : RefreshToken) (now : ℕ)
        → F fresh
        → P r
        → r.revoked_at ≡ none
        → P (new_row t policy hash fresh r.administrator r.family_id now r.session_expires_at)

  module _ (F : Fresh → Type 0) (P : RefreshToken → Type 0) (kept : IsKept F P) where
    revoke_family-Each :
        (family_id now : ℕ) (s : State)
        → Each t P s
        → Each t P (revoke_family t policy hash family_id now s)
    unfolding revoke_family
    revoke_family-Each family_id now s h =
        Each-update_many t P P (is_live_in_family family_id) (revoke_at now) s
          (λ r _ p. kept.revoked r now p) (λ r _ p. p) h

    claim-Each :
        (fresh : Fresh) (current : RefreshToken) (now : ℕ) (s : State)
        → F fresh
        → P current
        → current.revoked_at ≡ none
        → Each t P s
        → Each t P (claim t policy hash fresh current now s).0
    unfolding claim
    claim-Each fresh current now s drawn c live h =
        let p = λ (r : RefreshToken). r.id == current.id && is_none r.revoked_at in
        let s' = (update_many p (revoke_at now) s).0 in
        let h' =
          Each-update_many t P P p (revoke_at now) s (λ r _ q. kept.revoked r now q) (λ r _ q. q)
            h in
        elim (Bool-cases ((update_many p (revoke_at now) s).1 == 1)) [
          | inl one ↦ rw one (
              Each-create_many t P
                (new_row t policy hash fresh current.administrator current.family_id now
                    current.session_expires_at
                  ∷ [])
                s' (kept.renewed fresh current now drawn c live, tt) h')
          | inr other ↦ rw other (revoke_family-Each current.family_id now s' h')
        ]

    rotate_row-Each :
        (fresh : Fresh) (o : Option RefreshToken) (now : ℕ) (s : State)
        → F fresh
        → ((r : RefreshToken) → o ≡ some r → P r)
        → Each t P s
        → Each t P (rotate_row t policy hash fresh o now s).0
    unfolding rotate_row
    rotate_row-Each fresh none now s drawn c h = h
    rotate_row-Each fresh (some r) now s drawn c h = elim (Bool-cases (is_some r.revoked_at)) [
      | inl reused ↦ rw reused (revoke_family-Each r.family_id now s h)
      | inr live ↦ rw live (elim (Bool-cases (leb r.expires_at now)) [
        | inl over ↦ rw over h
        | inr valid ↦ rw valid (claim-Each fresh r now s drawn (c r refl) (ground arith) h)
      ])
    ]

    revoke_row-Each :
        (o : Option RefreshToken) (now : ℕ) (s : State)
        → Each t P s
        → Each t P (revoke_row t policy hash o now s)
    revoke_row-Each none now s h = h
    revoke_row-Each (some r) now s h = revoke_family-Each r.family_id now s h

    pub rotate-Each :
        (fresh : Fresh) (refresh_token now : ℕ) (s : State)
        → F fresh
        → Each t P s
        → Each t P (rotate t policy hash fresh refresh_token now s).0
    unfolding rotate find_by_hash
    rotate-Each fresh refresh_token now s drawn h =
        rotate_row-Each fresh (find_by_hash t policy hash refresh_token s) now s drawn
          (λ r e. find-All P (λ x. x.token_hash == hash refresh_token) (rows s) r e h) h

    pub revoke-Each :
        (refresh_token now : ℕ) (s : State)
        → Each t P s
        → Each t P (revoke t policy hash refresh_token now s)
    unfolding revoke
    revoke-Each refresh_token now s h =
        revoke_row-Each (find_by_hash t policy hash refresh_token s) now s h

    pub start-Each :
        (fresh : Fresh) (admin : SessionOwner) (now : ℕ) (s : State)
        → P (new_row t policy hash fresh admin fresh.family_id now (now + policy.max_session_ms))
        → Each t P s
        → Each t P (start t policy hash fresh admin now s).0
    unfolding start
    start-Each fresh admin now s new h =
        Each-create_many t P
          (new_row t policy hash fresh admin fresh.family_id now (now + policy.max_session_ms) ∷ [])
          _ (new, tt) (Each-delete_many t P (is_expired_of t policy hash admin now) s h)

  -- The row of the login, if the event is one, has the property, and what a refresh draws satisfies
  -- `F`.
  abbrev pub Opens : (Fresh → Type 0) → (RefreshToken → Type 0) → Event → Type 0
  Opens F P (logs_in fresh admin now) =
      P (new_row t policy hash fresh admin fresh.family_id now (now + policy.max_session_ms))
  Opens F P (refreshes fresh refresh_token now) = F fresh
  Opens F P (logs_out refresh_token now) = Unit

  pub run-Each :
      (F : Fresh → Type 0) (P : RefreshToken → Type 0)
      → IsKept F P
      → (es : List Event) (s : State) → All (Opens F P) es
      → Each t P s
      → Each t P (run s es)
  unfolding run
  run-Each F P kept [] s o h = h
  run-Each F P kept (logs_in fresh admin now ∷ es) s (o, os) h =
      run-Each F P kept es _ os (start-Each F P kept fresh admin now s o h)
  run-Each F P kept (refreshes fresh refresh_token now ∷ es) s (o, os) h =
      run-Each F P kept es _ os (rotate-Each F P kept fresh refresh_token now s o h)
  run-Each F P kept (logs_out refresh_token now ∷ es) s (o, os) h =
      run-Each F P kept es _ os (revoke-Each F P kept refresh_token now s h)

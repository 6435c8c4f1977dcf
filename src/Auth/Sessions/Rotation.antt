-- ===== src/Auth/Sessions/Rotation.antt =====
-- A refresh token works once: what a refresh hands out, and two refreshes at the same time.
use slomp.Prelude.{
  ℕ, ◌≤◌, ◌<◌, ◌≡◌, ◌≢◌, refl, ap, ◌∙◌, Bool, false, ◌&&◌, Option, none, some, List, [], ◌∷◌, arith,
  is_some, is_none, leb, length, All, All_of_all, Bool-cases, inl, inr, ◌==◌, nat_eq,
}
use slomp.Database.{Table}
use slomp.Database.Rows.{Each, Each-update_many, Each-create_many, filter-none}
use slomp.Auth.Sessions.{
  RefreshToken, SessionPolicy, Fresh, IssuedSession, is_live_in_family, revoke_at, new_row,
  find_by_hash, refresh_token_expiry, claim, rotate_row, rotate, find_active_owner,
}
use slomp.Auth.Sessions.History.{Event, run}
use slomp.Auth.Sessions.Closed.{IsClosedIn, IsOther, stays_closed, revoke_family-IsClosedIn}

module _ (t : Table RefreshToken) (policy : SessionPolicy) (hash : ℕ → ℕ) where
  open t use {
    State, rows, update_many, create_many, rows-update_many, rows-create_many, count-update_many,
  }

  -- The where clause of the conditional update.
  abbrev pub is_claimable : RefreshToken → RefreshToken → Bool
  is_claimable current r = r.id == current.id && is_none r.revoked_at

  abbrev IsClaimed : RefreshToken → RefreshToken → Type 0
  IsClaimed current r = is_claimable current r ≡ false

  claim-IsClaimed :
      (fresh : Fresh) (current : RefreshToken) (now : ℕ) (s : State)
      → fresh.row_id ≢ current.id
      → Each t (IsClaimed current) (claim t policy hash fresh current now s).0
  unfolding claim
  claim-IsClaimed fresh current now s new =
      let s' = (update_many (is_claimable current) (revoke_at now) s).0 in
      let h : Each t (IsClaimed current) s' =
        Each-update_many t (λ r. Unit {0}) (IsClaimed current) (is_claimable current)
          (revoke_at now) s (λ r e u. ground arith) (λ r e u. e)
          (All_of_all (λ r. Unit {0}) (rows s) (λ r. tt)) in
      elim (Bool-cases ((update_many (is_claimable current) (revoke_at now) s).1 == 1)) [
        | inl one ↦ rw one (
            Each-create_many t (IsClaimed current)
              (new_row t policy hash fresh current.administrator current.family_id now
                  current.session_expires_at
                ∷ [])
              s' (ground arith, tt) h)
        | inr other ↦ rw other (
            Each-update_many t (IsClaimed current) (IsClaimed current)
              (is_live_in_family current.family_id) (revoke_at now) s' (λ r e u. ground arith)
              (λ r e u. u) h)
      ]

  claim_again :
      (fresh : Fresh) (current : RefreshToken) (now : ℕ) (s : State)
      → Each t (IsClaimed current) s
      → ((claim t policy hash fresh current now s).1 ≡ none)
        × Each t (IsClosedIn current.family_id) (claim t policy hash fresh current now s).0
  unfolding claim
  claim_again fresh current now s h =
      let count : (update_many (is_claimable current) (revoke_at now) s).1 ≡ 0 =
        count-update_many (is_claimable current) (revoke_at now) s
        ∙ ap length (filter-none (is_claimable current) (rows s) h) in
      rw count (refl, revoke_family-IsClosedIn t policy hash current.family_id now _)

  -- Two requests that read the same row before either claims it: the second to claim gets no
  -- session, and nobody is behind the session of the row any more, where the first draws a new row
  -- id and later logins draw other families.
  claim_twice :
      (fresh fresh' : Fresh) (current : RefreshToken) (now now' : ℕ) (s : State) (es : List Event)
      (sub later : ℕ)
      → fresh.row_id ≢ current.id
      → All (IsOther current.family_id) es
      → let first = (claim t policy hash fresh current now s).0 in
        let second = claim t policy hash fresh' current now' first in
        (second.1 ≡ none)
        × (find_active_owner t policy hash sub current.family_id later
              (run t policy hash second.0 es)
            ≡ none)
  claim_twice fresh fresh' current now now' s es sub later new others =
      let (refused, closed) =
        claim_again fresh' current now' _ (claim-IsClaimed fresh current now s new) in
      (refused, stays_closed t policy hash current.family_id _ es sub later closed others)

  -- What a refresh hands out.
  pub record IsRenewal (r : RefreshToken) (now : ℕ) (session : IssuedSession) : Type 0 where
    pub unrevoked : r.revoked_at ≡ none
    pub unexpired : now < r.expires_at
    pub same_session : session.sid ≡ r.family_id
    pub same_owner : session.sub ≡ r.administrator.id
    pub same_end : session.session_expires_at ≡ r.session_expires_at
    pub bounded : session.refresh_token_expires_at ≤ r.session_expires_at

  -- The state and the session after a claim that succeeds.
  abbrev pub renewed_state : Fresh → RefreshToken → ℕ → State → State
  renewed_state fresh r now s =
      create_many
        (new_row t policy hash fresh r.administrator r.family_id now r.session_expires_at ∷ [])
        (update_many (is_claimable r) (revoke_at now) s).0

  claim-some :
      (fresh : Fresh) (r : RefreshToken) (now : ℕ) (s : State) (session : IssuedSession)
      → (claim t policy hash fresh r now s).1 ≡ some session
      → ((claim t policy hash fresh r now s).0 ≡ renewed_state fresh r now s)
        × (session.sid ≡ r.family_id)
        × (session.sub ≡ r.administrator.id)
        × (session.session_expires_at ≡ r.session_expires_at)
        × (session.refresh_token_expires_at ≡ refresh_token_expiry policy now r.session_expires_at)
  unfolding claim
  claim-some fresh r now s session e =
      elim (Bool-cases ((update_many (is_claimable r) (revoke_at now) s).1 == 1)) [
        | inl one ↦ rw one (let e' = rw one at e in (refl, cc, cc, cc, cc))
        | inr other ↦ absurd (let e' = rw other at e in cc)
      ]

  rotate_row-some :
      (fresh : Fresh) (r : RefreshToken) (now : ℕ) (s : State) (session : IssuedSession)
      → (rotate_row t policy hash fresh (some r) now s).1 ≡ some session
      → IsRenewal r now session
        × ((rotate_row t policy hash fresh (some r) now s).0 ≡ renewed_state fresh r now s)
  unfolding rotate_row refresh_token_expiry
  rotate_row-some fresh r now s session e = elim (Bool-cases (is_some r.revoked_at)) [
    | inl reused ↦ absurd (let e' = rw reused at e in cc)
    | inr live ↦ elim (Bool-cases (leb r.expires_at now)) [
      | inl over ↦ absurd (let e' = rw (live, over) at e in cc)
      | inr valid ↦
          let c = claim-some fresh r now s session (rw (live, valid) at e) in
          (
            record {
              unrevoked = ground arith;
              unexpired = ground arith;
              same_session = c.1;
              same_owner = c.2;
              same_end = c.3;
              bounded = ground (arith, c.4);
            },
            rw (live, valid) c.0,
          )
    ]
  ]

  pub found_cases :
      (o : Option RefreshToken) (fresh : Fresh) (now : ℕ) (s : State) (session : IssuedSession)
      → (rotate_row t policy hash fresh o now s).1 ≡ some session
      → (r : RefreshToken) × (o ≡ some r)
        × IsRenewal r now session
        × ((rotate_row t policy hash fresh o now s).0 ≡ renewed_state fresh r now s)
  unfolding rotate_row
  found_cases none fresh now s session e = cc
  found_cases (some r) fresh now s session e =
      let (renewal, state) = rotate_row-some fresh r now s session e in (r, refl, renewal, state)

  -- A refresh that gives a session found the row of its token unrevoked and unexpired, and the
  -- session has the owner, the family and the absolute end of that row, which its refresh token
  -- does not outlive.
  rotate-IsRenewal :
      (fresh : Fresh) (refresh_token now : ℕ) (s : State) (session : IssuedSession)
      → (rotate t policy hash fresh refresh_token now s).1 ≡ some session
      → (r : RefreshToken) × (find_by_hash t policy hash refresh_token s ≡ some r)
        × IsRenewal r now session
  unfolding rotate
  rotate-IsRenewal fresh refresh_token now s session e =
      let (r, found, renewal, _) =
        found_cases (find_by_hash t policy hash refresh_token s) fresh now s session e in
      (r, found, renewal)

-- ===== src/Auth/Sessions/Expiry.antt =====
-- How long a session lasts.
use slomp.Prelude.{
  ℕ, ◌+◌, ◌*◌, ◌≤◌, ◌<◌, ◌≡◌, ◌≢◌, ap, ◌∙◌, min, max, false, none, some, List, [], ◌∷◌, arith, All,
  All-mono, inl, inr, ◌⊎◌, nat_eq, beq_refl,
}
use slomp.Database.{Table}
use slomp.Database.Rows.{Each, Each-delete_many, find-none, find-append_none}
use slomp.Auth.Sessions.{
  RefreshToken, SessionOwner, SessionPolicy, Fresh, refresh_token_expiry, access_token_expiry,
  issue, start, is_active, find_active_owner, owner_of, is_expired_of,
}
use slomp.Auth.Sessions.History.{
  AnyFresh, Event, logs_in, refreshes, logs_out, run, run-Each, start-Each, IsKept, Opens,
}
use slomp.Auth.Sessions.Closed.{IsOther}

-- A row of the session ends with it.
abbrev pub EndsBy : ℕ → ℕ → RefreshToken → Type 0
EndsBy family_id end r =
    (r.family_id ≢ family_id) ⊎ ((r.expires_at ≤ end) × (r.session_expires_at ≤ end))

-- A token issued before the end of its session: the access token lasts a second at least, and
-- outlives neither its lifetime nor the session but for that second; the refresh token outlives
-- neither the session nor the idle timeout.
issue_bounds :
    (t : Table RefreshToken) (policy : SessionPolicy) (hash : ℕ → ℕ) (fresh : Fresh)
    (admin : SessionOwner) (family_id now end : ℕ) (s : t.State)
    → now ≤ end
    → let session = (issue t policy hash fresh admin family_id now end s).1 in
      (1 ≤ session.expires_in)
      × (now + session.expires_in * 1000
          ≤ max (now + 1000) (min (now + policy.access_token_ttl_ms) end))
      × (session.refresh_token_expires_at ≤ end)
      × (session.refresh_token_expires_at ≤ now + policy.idle_timeout_ms)
unfolding issue access_token_expiry refresh_token_expiry
issue_bounds t policy hash fresh admin family_id now end s h = omega arith

module _ (t : Table RefreshToken) (policy : SessionPolicy) (hash : ℕ → ℕ) where
  open t use {State, rows, create_many, delete_many, rows-create_many, rows-delete_many}

  EndsBy-IsKept : (family_id end : ℕ) → IsKept t policy hash AnyFresh (EndsBy family_id end)
  unfolding refresh_token_expiry
  EndsBy-IsKept family_id end = record {
    revoked = λ r now h. h;
    renewed = λ fresh r now drawn h live. ground arith;
  }

  Opens-of_IsOther :
      (family_id end : ℕ) (es : List Event)
      → All (IsOther family_id) es
      → All (Opens t policy hash AnyFresh (EndsBy family_id end)) es
  Opens-of_IsOther family_id end [] h = tt
  Opens-of_IsOther family_id end (logs_in fresh admin now ∷ es) (h, hs) =
      (inl h, Opens-of_IsOther family_id end es hs)
  Opens-of_IsOther family_id end (refreshes fresh k now ∷ es) (h, hs) =
      (tt, Opens-of_IsOther family_id end es hs)
  Opens-of_IsOther family_id end (logs_out k now ∷ es) (h, hs) =
      (tt, Opens-of_IsOther family_id end es hs)

  ended :
      (family_id end sub now : ℕ) (s : State)
      → end ≤ now
      → Each t (EndsBy family_id end) s
      → find_active_owner t policy hash sub family_id now s ≡ none
  unfolding find_active_owner
  ended family_id end sub now s over h = ap owner_of (
      find-none (is_active t policy hash sub family_id now) (rows s)
        (All-mono (EndsBy family_id end) _ _ (λ r c. ground arith) h))

  module _ (fresh : Fresh) (admin : SessionOwner) (now : ℕ) (s : State)
      (unused : Each t (λ r. r.family_id ≢ fresh.family_id) s) where
    -- From the absolute end of a session of a new family on, nobody is behind it, whatever logins
    -- with other families, refreshes and logouts there were.
    pub start_ends :
        (es : List Event) (sub later : ℕ)
        → All (IsOther fresh.family_id) es
        → now + policy.max_session_ms ≤ later
        → find_active_owner t policy hash sub fresh.family_id later
            (run t policy hash (start t policy hash fresh admin now s).0 es)
          ≡ none
    unfolding refresh_token_expiry
    start_ends es sub later others over =
        let end : ℕ = now + policy.max_session_ms in
        let P : RefreshToken → Type 0 = EndsBy fresh.family_id end in
        ended fresh.family_id end sub later _ over (
          run-Each t policy hash AnyFresh P (EndsBy-IsKept fresh.family_id end) es _
            (Opens-of_IsOther fresh.family_id end es others)
            (start-Each t policy hash AnyFresh P (EndsBy-IsKept fresh.family_id end) fresh admin now
              s (inr (omega arith, omega arith))
              (All-mono (λ r. r.family_id ≢ fresh.family_id) P (rows s) (λ r n. inl n) unused)))

    -- A login with a new family opens a session: its owner is behind it until the expiry of its
    -- refresh token.
    pub start_opens :
        (later : ℕ)
        → later < refresh_token_expiry policy now (now + policy.max_session_ms)
        → find_active_owner t policy hash admin.id fresh.family_id later
            (start t policy hash fresh admin now s).0
          ≡ some admin
    unfolding find_active_owner start
    start_opens later open' =
        let p = is_active t policy hash admin.id fresh.family_id later in
        let kept : All (λ r. p r ≡ false)
            (rows (delete_many (is_expired_of t policy hash admin now) s)) =
          All-mono (λ r. r.family_id ≢ fresh.family_id) _ _ (λ r n. ground arith)
            (Each-delete_many t (λ r. r.family_id ≢ fresh.family_id)
              (is_expired_of t policy hash admin now) s unused) in
        rw rows-create_many (
          ap owner_of (find-append_none p _ _ kept)
          ∙ ground (arith, beq_refl fresh.family_id, beq_refl admin.id))

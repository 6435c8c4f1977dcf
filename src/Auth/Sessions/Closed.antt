-- ===== src/Auth/Sessions/Closed.antt =====
-- When a session is closed, and that it stays closed.
use slomp.Prelude.{
  ℕ, ◌≡◌, ◌≢◌, refl, ap, true, none, some, List, [], ◌∷◌, arith, is_some, All, All-mono, All_of_all,
  inl, inr, ◌⊎◌, nat_eq,
}
use slomp.Database.{Table}
use slomp.Database.Rows.{Each, Each-update_many, find-none}
use slomp.Auth.Sessions.{
  RefreshToken, SessionPolicy, Fresh, is_live_in_family, revoke_at, find_by_hash, revoke_family,
  rotate_row, rotate, revoke, is_active, find_active_owner, revoke_row, owner_of,
}
use slomp.Auth.Sessions.History.{
  AnyFresh, Event, logs_in, refreshes, logs_out, run, run-Each, IsKept, Opens,
}

-- A row of the session is revoked.
abbrev pub IsClosedIn : ℕ → RefreshToken → Type 0
IsClosedIn family_id r = (r.family_id ≢ family_id) ⊎ (r.revoked_at ≢ none)

-- A login opens another session: `randomUUID` never repeats a family.
abbrev pub IsOther : ℕ → Event → Type 0
IsOther family_id (logs_in fresh admin now) = fresh.family_id ≢ family_id
IsOther family_id (refreshes fresh refresh_token now) = Unit
IsOther family_id (logs_out refresh_token now) = Unit

module _ (t : Table RefreshToken) (policy : SessionPolicy) (hash : ℕ → ℕ) where
  open t use {
    State, rows, update_many, create_many, rows-update_many, rows-create_many, count-update_many,
  }

  IsClosedIn-IsKept : (family_id : ℕ) → IsKept t policy hash AnyFresh (IsClosedIn family_id)
  IsClosedIn-IsKept family_id = record {
    revoked = λ r now h. inr (λ e. cc);
    renewed = λ fresh r now drawn h live. ground arith;
  }

  pub revoke_family-IsClosedIn :
      (family_id now : ℕ) (s : State)
      → Each t (IsClosedIn family_id) (revoke_family t policy hash family_id now s)
  unfolding revoke_family
  revoke_family-IsClosedIn family_id now s =
      Each-update_many t (λ r. Unit {0}) (IsClosedIn family_id) (is_live_in_family family_id)
        (revoke_at now) s (λ r e u. inr (λ q. cc)) (λ r e u. ground arith)
        (All_of_all (λ r. Unit {0}) (rows s) (λ r. tt))

  Opens-of_IsOther :
      (family_id : ℕ) (es : List Event)
      → All (IsOther family_id) es
      → All (Opens t policy hash AnyFresh (IsClosedIn family_id)) es
  Opens-of_IsOther family_id [] h = tt
  Opens-of_IsOther family_id (logs_in fresh admin now ∷ es) (h, hs) =
      (inl h, Opens-of_IsOther family_id es hs)
  Opens-of_IsOther family_id (refreshes fresh k now ∷ es) (h, hs) =
      (tt, Opens-of_IsOther family_id es hs)
  Opens-of_IsOther family_id (logs_out k now ∷ es) (h, hs) = (tt, Opens-of_IsOther family_id es hs)

  pub stays_closed :
      (family_id : ℕ) (s : State) (es : List Event) (sub now : ℕ)
      → Each t (IsClosedIn family_id) s
      → All (IsOther family_id) es
      → find_active_owner t policy hash sub family_id now (run t policy hash s es) ≡ none
  unfolding find_active_owner
  stays_closed family_id s es sub now h others = ap owner_of (
      find-none (is_active t policy hash sub family_id now) (rows (run t policy hash s es)) (
        All-mono (IsClosedIn family_id) _ _ (λ r c. ground arith)
          (run-Each t policy hash AnyFresh (IsClosedIn family_id) (IsClosedIn-IsKept family_id) es s
            (Opens-of_IsOther family_id es others) h)))

  -- After a logout nobody is behind the session of its token, whatever logins with other families,
  -- refreshes and logouts follow.
  revoke_closes :
      (refresh_token now : ℕ) (s : State) (r : RefreshToken) (es : List Event) (sub later : ℕ)
      → find_by_hash t policy hash refresh_token s ≡ some r
      → All (IsOther r.family_id) es
      → find_active_owner t policy hash sub r.family_id later
          (run t policy hash (revoke t policy hash refresh_token now s) es)
        ≡ none
  unfolding revoke
  revoke_closes refresh_token now s r es sub later found others =
      rw (found, revoke_row)
        (stays_closed r.family_id _ es sub later (revoke_family-IsClosedIn r.family_id now s)
          others)

  -- A refresh with a token whose row is still stored, and was already rotated or revoked, gives no
  -- session, and nobody is behind the session of that row afterwards, whatever logins with other
  -- families, refreshes and logouts follow.
  pub rotate-revoked_closes :
      (fresh : Fresh) (refresh_token now : ℕ) (s : State) (r : RefreshToken) (es : List Event)
      (sub later : ℕ)
      → find_by_hash t policy hash refresh_token s ≡ some r
      → r.revoked_at ≢ none
      → All (IsOther r.family_id) es
      → ((rotate t policy hash fresh refresh_token now s).1 ≡ none)
        × (find_active_owner t policy hash sub r.family_id later
              (run t policy hash (rotate t policy hash fresh refresh_token now s).0 es)
            ≡ none)
  unfolding rotate
  rotate-revoked_closes fresh refresh_token now s r es sub later found revoked others =
      let reused : is_some r.revoked_at ≡ true = ground arith in
      rw (found, rotate_row, reused)
        (
          refl,
          stays_closed r.family_id _ es sub later (revoke_family-IsClosedIn r.family_id now s)
              others,
        )

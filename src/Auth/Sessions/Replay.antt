-- ===== src/Auth/Sessions/Replay.antt =====
-- A refresh token that was exchanged is presented again, after other requests or none.
use slomp.Prelude.{
  ℕ, ◌≡◌, ◌≢◌, refl, sym, ap, ◌∙◌, subst, true, none, some, List, [], ◌∷◌, arith, All, All-mono,
  Pairwise, Bool-cases, Option-cases, inl, inr, ◌⊎◌, ◌==◌, nat_eq, beq_refl, find,
}
use slomp.Database.{Table}
use slomp.Database.Rows.{Each, Each-update_many, Each-create_many, find-All, find_test}
use slomp.Auth.Sessions.{
  RefreshToken, SessionPolicy, Fresh, IssuedSession, revoke_at, new_row, find_by_hash, rotate,
  find_active_owner,
}
use slomp.Auth.Sessions.History.{Event, logs_in, refreshes, logs_out, run, run-Each, IsKept, Opens}
use slomp.Auth.Sessions.Closed.{IsOther, rotate-revoked_closes}
use slomp.Auth.Sessions.Rotation.{is_claimable, renewed_state, found_cases}

-- Where the hashes of the rows differ, only the row that is found has the hash.
only_found :
    (hashed : ℕ) (rs : List RefreshToken) (r : RefreshToken)
    → Pairwise (λ (a b : RefreshToken). a.token_hash ≢ b.token_hash) rs
    → find (λ (x : RefreshToken). x.token_hash == hashed) rs ≡ some r
    → All (λ (x : RefreshToken). (x.token_hash ≢ hashed) ⊎ (x ≡ r)) rs
only_found hashed [] r apart found = tt
only_found hashed (x ∷ rs) r (a, apart) found = elim (Bool-cases (x.token_hash == hashed)) [
  | inl hit ↦
      let same : x ≡ r = ground arith in
      let is_hash : x.token_hash ≡ hashed = ground arith in
      (
        inr same,
        All-mono (λ (y : RefreshToken). x.token_hash ≢ y.token_hash)
            (λ (y : RefreshToken). (y.token_hash ≢ hashed) ⊎ (y ≡ r)) rs
            (λ y other. inl (λ e. other (is_hash ∙ sym e))) a,
      )
  | inr miss ↦ (inl (ground arith), only_found hashed rs r apart (ground arith))
]

module _ (t : Table RefreshToken) (policy : SessionPolicy) (hash : ℕ → ℕ) where
  open t use {State, rows, update_many}

  -- The values drawn have another hash than the token.
  abbrev pub IsNew : ℕ → Fresh → Type 0
  IsNew refresh_token fresh = hash fresh.refresh_token ≢ hash refresh_token

  -- The event draws no token of that hash.
  abbrev pub DrawsNew : ℕ → Event → Type 0
  DrawsNew refresh_token (logs_in fresh admin now) = IsNew refresh_token fresh
  DrawsNew refresh_token (refreshes fresh k now) = IsNew refresh_token fresh
  DrawsNew refresh_token (logs_out k now) = Unit

  -- A row of the token is revoked, and of the session.
  abbrev IsSpent : ℕ → ℕ → RefreshToken → Type 0
  IsSpent refresh_token family_id x =
      (x.token_hash ≢ hash refresh_token) ⊎ ((x.revoked_at ≢ none) × (x.family_id ≡ family_id))

  IsSpent-IsKept :
      (refresh_token family_id : ℕ)
      → IsKept t policy hash (IsNew refresh_token) (IsSpent refresh_token family_id)
  IsSpent-IsKept refresh_token family_id = record {
    revoked =
        λ r now h. elim h [ inl other ↦ inl other | inr (gone, same) ↦ inr ((λ e. cc), same) ];
    renewed = λ fresh r now drawn h live. inl drawn;
  }

  Opens-of_DrawsNew :
      (refresh_token family_id : ℕ) (es : List Event)
      → All (DrawsNew refresh_token) es
      → All (Opens t policy hash (IsNew refresh_token) (IsSpent refresh_token family_id)) es
  Opens-of_DrawsNew refresh_token family_id [] h = tt
  Opens-of_DrawsNew refresh_token family_id (logs_in fresh admin now ∷ es) (h, hs) =
      (inl h, Opens-of_DrawsNew refresh_token family_id es hs)
  Opens-of_DrawsNew refresh_token family_id (refreshes fresh k now ∷ es) (h, hs) =
      (h, Opens-of_DrawsNew refresh_token family_id es hs)
  Opens-of_DrawsNew refresh_token family_id (logs_out k now ∷ es) (h, hs) =
      (tt, Opens-of_DrawsNew refresh_token family_id es hs)

  renewed_state-IsSpent :
      (fresh : Fresh) (refresh_token now : ℕ) (s : State) (r : RefreshToken)
      → Each t (λ (x : RefreshToken). (x.token_hash ≢ hash refresh_token) ⊎ (x ≡ r)) s
      → r.revoked_at ≡ none
      → IsNew refresh_token fresh
      → Each t (IsSpent refresh_token r.family_id) (renewed_state t policy hash fresh r now s)
  renewed_state-IsSpent fresh refresh_token now s r only live drawn =
      let claims : is_claimable t policy hash r r ≡ true = ground (arith, beq_refl r.id) in
      Each-create_many t (IsSpent refresh_token r.family_id)
        (new_row t policy hash fresh r.administrator r.family_id now r.session_expires_at ∷ [])
        (update_many (is_claimable t policy hash r) (revoke_at now) s).0 (inl drawn, tt)
        (Each-update_many t (λ (x : RefreshToken). (x.token_hash ≢ hash refresh_token) ⊎ (x ≡ r))
          (IsSpent refresh_token r.family_id) (is_claimable t policy hash r) (revoke_at now) s
          (λ x hit h. elim h [
            | inl other ↦ inl other
            | inr same ↦ inr ((λ e. cc), ap (λ (y : RefreshToken). y.family_id) same)
          ])
          (λ x miss h. elim h [
            | inl other ↦ inl other
            | inr same ↦ absurd (ground (arith, ap (is_claimable t policy hash r) same))
          ])
          only)

  spent_again :
      (fresh : Fresh) (refresh_token family_id now : ℕ) (s : State) (es : List Event)
      (sub later : ℕ)
      → Each t (IsSpent refresh_token family_id) s
      → All (IsOther family_id) es
      → let second = rotate t policy hash fresh refresh_token now s in
        (second.1 ≡ none)
        × ((find_by_hash t policy hash refresh_token s ≡ none)
            ⊎ (find_active_owner t policy hash sub family_id later (run t policy hash second.0 es)
                ≡ none))
  unfolding rotate find_by_hash
  spent_again fresh refresh_token family_id now s es sub later spent others =
      let p = λ (x : RefreshToken). x.token_hash == hash refresh_token in
      elim (Option-cases (find_by_hash t policy hash refresh_token s)) [
        | inl gone ↦ (rw gone refl, inl gone)
        | inr (r, found) ↦
            let hit = find_test p (rows s) r found in
            elim (find-All (IsSpent refresh_token family_id) p (rows s) r found spent) [
              | inl other ↦ absurd (other (ground arith))
              | inr (revoked, same) ↦
                  let (refused, closed) =
                    rotate-revoked_closes t policy hash fresh refresh_token now s r es sub later
                      found revoked (subst (λ f. All (IsOther f) es) (sym same) others) in
                  (
                    refused,
                    inr (
                        subst
                          (λ f.
                            find_active_owner t policy hash sub f later (
                              run t policy hash (rotate t policy hash fresh refresh_token now s).0
                                es)
                            ≡ none)
                          same closed),
                  )
            ]
      ]

  -- A token that was exchanged for a new one works no second time, whatever logins, refreshes and
  -- logouts there were in between: presenting it again gives no session. Where its row is still
  -- stored then, nobody is behind the session that the exchange renewed afterwards either, whatever
  -- follows. The hashes of the rows differ, no token drawn up to then has the hash of this one, and
  -- later logins draw other families.
  pub rotate_twice :
      (fresh fresh' : Fresh) (refresh_token now now' : ℕ) (s : State) (session : IssuedSession)
      (between after : List Event) (sub later : ℕ)
      → Pairwise (λ (a b : RefreshToken). a.token_hash ≢ b.token_hash) (rows s)
      → (rotate t policy hash fresh refresh_token now s).1 ≡ some session
      → IsNew refresh_token fresh
      → All (DrawsNew refresh_token) between
      → All (IsOther session.sid) after
      → let first = (rotate t policy hash fresh refresh_token now s).0 in
        let middle = run t policy hash first between in
        let second = rotate t policy hash fresh' refresh_token now' middle in
        (second.1 ≡ none)
        × ((find_by_hash t policy hash refresh_token middle ≡ none)
            ⊎ (find_active_owner t policy hash sub session.sid later
                  (run t policy hash second.0 after)
                ≡ none))
  unfolding rotate find_by_hash
  rotate_twice fresh fresh' refresh_token now now' s session between after sub later apart e drawn
        draws others =
      let (r, found, renewal, state) =
        found_cases t policy hash (find_by_hash t policy hash refresh_token s) fresh now s session
          e in
      let only = only_found (hash refresh_token) (rows s) r apart found in
      let P = IsSpent refresh_token r.family_id in
      let first : Each t P (rotate t policy hash fresh refresh_token now s).0 =
        subst (Each t P) (sym state)
          (renewed_state-IsSpent fresh refresh_token now s r only renewal.unrevoked drawn) in
      rw renewal.same_session (
        spent_again fresh' refresh_token r.family_id now' _ after sub later
          (run-Each t policy hash (IsNew refresh_token) P (IsSpent-IsKept refresh_token r.family_id)
            between _ (Opens-of_DrawsNew refresh_token r.family_id between draws) first)
          (rw renewal.same_session at others))

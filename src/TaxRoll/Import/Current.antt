-- ===== src/TaxRoll/Import/Current.antt =====
-- A property and period never get a second current settlement from an import.
use slomp.Prelude.{
  ℕ, ◌+◌, ◌≡◌, ◌≢◌, refl, sym, ap, ◌∙◌, subst, Bool, true, false, ◌&&◌, not, some, List, [], ◌∷◌,
  map, if◌then◌else◌, ◌==◌, nat_eq, pair_eq, filter, includes, get, set, get-set, get-set_self,
  is_none, is_some, arith, Bool-cases, inl, inr, All, Any, All-map, All-mono, All-filter,
  All-filter_of_test, Pairwise, Pairwise-map, Pairwise-filter, Pairwise-append, All_members,
  All_of_member, Any-filter, Any-mono, Pairwise-mono, Pairwise-All, includes-map_of_Any,
  nat_beq_iff, pair_beq_iff,
}
use slomp.Settlements.Status.{status_eq}
use slomp.Settlements.Rows.{SettlementRow}
use slomp.TaxRoll.Import.{
  Registry, Classified, is_current_of, index_current, meets_firm, free_rows, conflicting_rows,
  id_of, current_ids, update_settlements, replace, miss, new_settlement, new_settlements,
  newly_missing, write_settlements,
}

abbrev pub key_of : SettlementRow → ℕ × ℕ
key_of s = (s.property_id, s.period)

abbrev pub classified_key : Classified → ℕ × ℕ
classified_key c = (c.property_id, c.row.period)

abbrev pub IsReplaced : SettlementRow → Type 0
IsReplaced s = is_none s.replaced_at ≡ false

-- Two settlements of one property and period are not both current.
abbrev pub NotBothCurrent : SettlementRow → SettlementRow → Type 0
NotBothCurrent a b = key_of a ≡ key_of b → is_none a.replaced_at ≡ true → IsReplaced b

-- What an update leaves of a settlement: its property and period, and that it was replaced.
abbrev pub Keeps : SettlementRow → SettlementRow → Type 0
Keeps new old = (key_of new ≡ key_of old) × (IsReplaced old → IsReplaced new)

Keeps-NotBothCurrent :
    (a a' b b' : SettlementRow)
    → Keeps a' a
    → Keeps b' b
    → NotBothCurrent a b
    → NotBothCurrent a' b'
Keeps-NotBothCurrent a a' b b' (k, l) (m, r) c e open_a =
    elim (Bool-cases (is_none a.replaced_at)) [
      | inl current ↦ r (c (sym k ∙ e ∙ m) current)
      | inr old ↦ absurd (ground (arith, l old))
    ]

module _ (municipality_id now : ℕ) (replaced missing : List ℕ) where
  abbrev pub touches : List ℕ → SettlementRow → Bool
  touches ids s = includes ids s.id && s.municipality_id == municipality_id

  -- What the two updates make of a settlement.
  abbrev pub after_replace : SettlementRow → SettlementRow
  after_replace s = if touches replaced s then replace now s else s

  abbrev pub after_updates : SettlementRow → SettlementRow
  after_updates s = let s' = after_replace s in if touches missing s' then miss now s' else s'

  pub after_updates_lem :
      (s : SettlementRow)
      → Keeps (after_updates s) s
        × (touches replaced s ≡ true → IsReplaced (after_updates s))
        × (touches replaced s ≡ false → (after_updates s).replaced_at ≡ s.replaced_at)
        × ((after_updates s).status ≡ s.status)
        × ((after_updates s).id ≡ s.id)
  after_updates_lem s = elim (Bool-cases (touches replaced s)) [
    | inl hit ↦ rw hit (elim (Bool-cases (touches missing (replace now s))) [
      | inl also ↦ rw also ((refl, λ h. refl), λ h. refl, λ h. absurd (ground arith), refl, refl)
      | inr only ↦ rw only ((refl, λ h. refl), λ h. refl, λ h. absurd (ground arith), refl, refl)
    ])
    | inr miss ↦ rw miss (elim (Bool-cases (touches missing s)) [
      | inl also ↦ rw also ((refl, λ h. h), λ h. absurd (ground arith), λ h. refl, refl, refl)
      | inr only ↦ rw only ((refl, λ h. h), λ h. absurd (ground arith), λ h. refl, refl, refl)
    ])
  ]

  pub updates-eq :
      (rows : List SettlementRow)
      → update_settlements municipality_id missing
          (miss now)
          (update_settlements municipality_id replaced (replace now) rows)
        ≡ map after_updates rows
  updates-eq [] = refl
  updates-eq (s ∷ rows) = ap (◌∷◌ (after_updates s)) (updates-eq rows)

abbrev KeyApart : SettlementRow → SettlementRow → Type 0
KeyApart a b = key_of a ≢ key_of b

get-index_other :
    (m : List ((ℕ × ℕ) × SettlementRow)) (rows : List SettlementRow) (k : ℕ × ℕ)
    → All (λ y. key_of y ≢ k) rows
    → get (index_current m rows) k ≡ get m k
get-index_other m [] k h = refl
get-index_other m (s ∷ rows) k (h, hs) =
    get-index_other (set m (key_of s) s) rows k hs
    ∙ get-set m (key_of s) k s
    ∙ elim (Bool-cases (key_of s == k)) [
      | inl same ↦ absurd (h ((pair_beq_iff (key_of s) k).0 same))
      | inr other ↦ rw other refl
    ]

-- Where no two settlements share property and period, each is found by its own.
get-index_current :
    (m : List ((ℕ × ℕ) × SettlementRow)) (rows : List SettlementRow) (s : SettlementRow)
    → Pairwise KeyApart rows
    → Any (λ y. y ≡ s) rows
    → get (index_current m rows) (key_of s) ≡ some s
get-index_current m [] s p h = absurd h.1
get-index_current m (x ∷ rows) s (p, ps) (inl e) =
    get-index_other (set m (key_of x) x) rows (key_of s) (
      All-mono (KeyApart x) (λ y. key_of y ≢ key_of s) rows (λ y q same. q (ap key_of e ∙ sym same))
        p)
    ∙ rw (← e) (get-set_self m (key_of x) x)
get-index_current m (x ∷ rows) s (p, ps) (inr r) =
    get-index_current (set m (key_of x) x) rows s ps r

-- What the classified rows of an import are: each has a known property, and the settlement that its
-- property and period find; no two have the same property and period.
pub record IsClassified (ids : List ℕ) (current : List SettlementRow) (c : Classified)
    : Type 0 where
  pub known : includes ids c.property_id ≡ true
  pub found : c.current ≡ get (index_current [] current) (classified_key c)

abbrev pub RowsApart : Classified → Classified → Type 0
RowsApart c d = classified_key c ≢ classified_key d

-- The settlements of the municipality's properties are the municipality's.
abbrev pub IsOwned : ℕ → List ℕ → SettlementRow → Type 0
IsOwned municipality_id ids s =
    includes ids s.property_id ≡ true → s.municipality_id ≡ municipality_id

All-new_settlements {κ} :
    (P : SettlementRow → Type κ) (municipality_id id : ℕ) (rows : List Classified)
    → All (λ c. (i : ℕ) → P (new_settlement municipality_id i c)) rows
    → All P (new_settlements municipality_id id rows)
unfolding new_settlements
All-new_settlements P municipality_id id [] h = tt
All-new_settlements P municipality_id id (c ∷ rows) (h, hs) =
    (h id, All-new_settlements P municipality_id (id + 1) rows hs)

new_settlements-apart :
    (municipality_id id : ℕ) (rows : List Classified)
    → Pairwise RowsApart rows
    → Pairwise NotBothCurrent (new_settlements municipality_id id rows)
unfolding new_settlements
new_settlements-apart municipality_id id [] h = tt
new_settlements-apart municipality_id id (c ∷ rows) (h, hs) = (
  All-new_settlements (NotBothCurrent (new_settlement municipality_id id c)) municipality_id
      (id + 1) rows
      (All-mono (RowsApart c)
        (λ d.
          (i : ℕ)
          → NotBothCurrent (new_settlement municipality_id id c)
              (new_settlement municipality_id i d))
        rows (λ d q i e n. absurd (q e)) h),
  new_settlements-apart municipality_id (id + 1) rows hs,
)

module _ (municipality_id now : ℕ) (ids : List ℕ) (settlements : List SettlementRow)
    (rows : List Classified) (single : Pairwise NotBothCurrent settlements)
    (owned : All (IsOwned municipality_id ids) settlements) where
  abbrev current : List SettlementRow
  current = filter (is_current_of municipality_id ids) settlements

  current_apart : Pairwise KeyApart current
  current_apart =
      let open_row = λ (s : SettlementRow). is_none s.replaced_at ≡ true in
      Pairwise-mono (λ a b. NotBothCurrent a b × open_row a × open_row b) KeyApart current
        (λ a b h e. ground (arith, h.2, h.0 e h.1))
        (Pairwise-All NotBothCurrent open_row current
          (Pairwise-filter NotBothCurrent (is_current_of municipality_id ids) settlements single)
          (All-filter_of_test open_row (is_current_of municipality_id ids) settlements
            (λ s t. ground (arith, t))))

  module _ (classified : All (IsClassified ids current) rows) where
    abbrev superseded : List ℕ
    superseded = current_ids (conflicting_rows rows)

    -- A current settlement that a row of the import meets and that is not locked is replaced.
    met :
        (s : SettlementRow) (c : Classified)
        → Any (λ y. y ≡ s) settlements
        → Any (λ d. d ≡ c) (free_rows rows)
        → key_of s ≡ classified_key c
        → is_none s.replaced_at ≡ true
        → touches municipality_id now superseded [] superseded s ≡ true
    met s c here free same open_s =
        let mine : IsClassified ids current c =
          All_of_member (IsClassified ids current) (free_rows rows) c
            (All-filter (IsClassified ids current) (λ (d : Classified). not (meets_firm d.current))
              rows classified)
            free in
        let known : includes ids s.property_id ≡ true =
          ap (includes ids) (ap (λ (k : ℕ × ℕ). k.0) same) ∙ mine.known in
        let town : s.municipality_id ≡ municipality_id =
          All_of_member (IsOwned municipality_id ids) settlements s owned here known in
        let town_test = (nat_beq_iff s.municipality_id municipality_id).1 town in
        let listed : Any (λ y. y ≡ s) current =
          Any-filter (λ y. y ≡ s) (is_current_of municipality_id ids) settlements
            (λ y e.
              subst (λ z. is_current_of municipality_id ids z ≡ true) (sym e)
                (rw (known, town_test, open_s) refl))
            here in
        let found : c.current ≡ some s =
          mine.found
          ∙ ap (get (index_current [] current)) (sym same)
          ∙ get-index_current [] current s current_apart listed in
        let conflicting : Any (λ d. d ≡ c) (conflicting_rows rows) =
          Any-filter (λ d. d ≡ c) (λ (d : Classified). is_some d.current) (free_rows rows)
            (λ d e. ap (λ (x : Classified). is_some x.current) e ∙ ap is_some found) free in
        let gone : includes superseded s.id ≡ true =
          includes-map_of_Any (λ (d : Classified). id_of d.current) (conflicting_rows rows) s.id
            (Any-mono (λ d. d ≡ c) (λ d. id_of d.current ≡ s.id) (conflicting_rows rows)
              (λ d e. ap (λ (x : Classified). id_of x.current) e ∙ ap id_of found) conflicting) in
        rw (gone, town_test) refl

    -- An import's second pass leaves at most one current settlement of each property and period, where
    -- there was at most one before, no two rows of the import are of one property and period, and the
    -- settlements of the municipality's properties are its own.
    pub write_settlements-single :
        (r : Registry)
        → r.settlements ≡ settlements
        → Pairwise RowsApart rows
        → Pairwise NotBothCurrent (write_settlements municipality_id now current rows r).settlements
    unfolding write_settlements
    write_settlements-single r same apart =
        let missing = newly_missing current rows in
        let change = after_updates municipality_id now superseded missing in
        let lem = after_updates_lem municipality_id now superseded missing in
        let free = free_rows rows in
        let new = new_settlements municipality_id r.next_settlement free in
        let old_apart : Pairwise NotBothCurrent (map change settlements) =
          Pairwise-map NotBothCurrent NotBothCurrent change settlements
            (λ a b h. Keeps-NotBothCurrent a (change a) b (change b) (lem a).0 (lem b).0 h)
            single in
        let new_apart : Pairwise NotBothCurrent new =
          new_settlements-apart municipality_id r.next_settlement free (
            Pairwise-filter RowsApart (λ (d : Classified). not (meets_firm d.current)) rows
              apart) in
        let both : All (λ s. All (NotBothCurrent s) new) (map change settlements) =
          All-map (λ s. All (NotBothCurrent s) new) change settlements
            (All-mono (λ s. Any (λ y. y ≡ s) settlements) (λ s. All (NotBothCurrent (change s)) new)
              settlements
              (λ s here.
                All-new_settlements (NotBothCurrent (change s)) municipality_id r.next_settlement
                  free
                  (All-mono (λ c. Any (λ d. d ≡ c) free)
                    (λ c. (i : ℕ) → NotBothCurrent (change s) (new_settlement municipality_id i c))
                    free
                    (λ c c_here i e open_new. absurd (elim (Bool-cases (is_none s.replaced_at)) [
                      | inl current_s ↦ ground (
                        arith,
                        open_new,
                        (lem s).1 (met s c here c_here (sym (lem s).0.0 ∙ e) current_s),
                      )
                      | inr old ↦ ground (arith, open_new, (lem s).0.1 old)
                    ]))
                    (All_members free)))
              (All_members settlements)) in
        rw (same, updates-eq municipality_id now superseded missing settlements)
          (Pairwise-append NotBothCurrent (map change settlements) new old_apart new_apart both)

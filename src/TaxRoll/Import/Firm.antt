-- ===== src/TaxRoll/Import/Firm.antt =====
-- An import never replaces a settlement that is EN_FIRME.
use slomp.Prelude.{
  ℕ, ◌≡◌, ◌≢◌, refl, sym, ap, ◌∙◌, subst, true, false, not, some, List, [], ◌∷◌, ◌++◌, map, ◌==◌,
  nat_eq, pair_eq, filter, includes, get, set, get-set, is_some, arith, Bool-cases, Option-cases,
  inl, inr, All, Any, All-mono, All-both, All-filter, All-filter_of_test, Pairwise, All_members,
  All_of_member, Any-mono, Any-map, Any_with_All, Any-append_iff, Any_of_includes-map,
}
use slomp.Settlements.Status.{en_firme, status_eq, status_beq_iff}
use slomp.Settlements.Rows.{SettlementRow}
use slomp.TaxRoll.Import.{
  Registry, Classified, is_current_of, index_current, meets_firm, free_rows, conflicting_rows,
  id_of, current_ids, new_settlements, newly_missing, write_settlements,
}
use slomp.TaxRoll.Import.Current.{
  IsClassified, classified_key, key_of, touches, after_updates, after_updates_lem, updates-eq,
}

-- What an index of settlements finds is one of them.
get-index-All {κ} :
    (P : SettlementRow → Type κ) (m : List ((ℕ × ℕ) × SettlementRow)) (rows : List SettlementRow)
    (k : ℕ × ℕ) (t : SettlementRow)
    → All P rows
    → ((u : SettlementRow) → get m k ≡ some u → P u)
    → get (index_current m rows) k ≡ some t
    → P t
get-index-All P m [] k t h base e = base t e
get-index-All P m (s ∷ rows) k t (h, hs) base e =
    get-index-All P (set m (key_of s) s) rows k t hs
      (λ u g. elim (Bool-cases (key_of s == k)) [
        | inl same ↦ subst P (ground (arith, get-set m (key_of s) k s, same, g)) h
        | inr other ↦ base u (ground (arith, get-set m (key_of s) k s, other, g))
      ])
      e

abbrev pub OwnId : SettlementRow → SettlementRow → Type 0
OwnId a b = a.id ≢ b.id

one_of_id :
    (rows : List SettlementRow) (s t : SettlementRow)
    → Pairwise OwnId rows
    → Any (λ y. y ≡ s) rows
    → Any (λ y. y ≡ t) rows
    → s.id ≡ t.id
    → s ≡ t
one_of_id [] s t p h k e = absurd h.1
one_of_id (x ∷ rows) s t (p, ps) (inl a) (inl b) e = sym a ∙ b
one_of_id (x ∷ rows) s t (p, ps) (inr a) (inr b) e = one_of_id rows s t ps a b e
one_of_id (x ∷ rows) s t (p, ps) (inl a) (inr b) e =
    absurd (All_of_member (OwnId x) rows t p b (ap (λ (r : SettlementRow). r.id) a ∙ e))
one_of_id (x ∷ rows) s t (p, ps) (inr a) (inl b) e =
    absurd (All_of_member (OwnId x) rows s p a (ap (λ (r : SettlementRow). r.id) b ∙ sym e))

module _ (municipality_id now : ℕ) (ids : List ℕ) (settlements : List SettlementRow)
    (rows : List Classified) (numbered : Pairwise OwnId settlements) where
  abbrev current : List SettlementRow
  current = filter (is_current_of municipality_id ids) settlements

  abbrev superseded : List ℕ
  superseded = current_ids (conflicting_rows rows)

  module _ (classified : All (IsClassified ids current) rows) where
    -- The settlement that a conflicting row meets is one of the registry, and not EN_FIRME.
    abbrev MeetsOther : Classified → Type 0
    MeetsOther c =
        (t : SettlementRow) × (id_of c.current ≡ t.id)
        × Any (λ y. y ≡ t) settlements
        × ((t.status == en_firme) ≡ false)

    meets_other : All MeetsOther (conflicting_rows rows)
    meets_other =
        let free_test = λ (c : Classified). not (meets_firm c.current) in
        let some_test = λ (c : Classified). is_some c.current in
        let free : All (λ c. free_test c ≡ true) (conflicting_rows rows) =
          All-filter (λ c. free_test c ≡ true) some_test (free_rows rows)
            (All-filter_of_test (λ c. free_test c ≡ true) free_test rows (λ c h. h)) in
        let met : All (λ c. some_test c ≡ true) (conflicting_rows rows) =
          All-filter_of_test (λ c. some_test c ≡ true) some_test (free_rows rows) (λ c h. h) in
        let known : All (IsClassified ids current) (conflicting_rows rows) =
          All-filter (IsClassified ids current) some_test (free_rows rows)
            (All-filter (IsClassified ids current) free_test rows classified) in
        All-both (λ c. (free_test c ≡ true) × (some_test c ≡ true)) (IsClassified ids current)
          MeetsOther (conflicting_rows rows)
          (λ c h mine. elim (Option-cases c.current) [
            | inl no_row ↦ absurd (ground (arith, h.1, no_row))
            | inr (t, found) ↦ (
              t,
              ap id_of found,
              get-index-All (λ u. Any (λ y. y ≡ u) settlements) [] current (classified_key c) t
                  (All-filter (λ u. Any (λ y. y ≡ u) settlements)
                    (is_current_of municipality_id ids) settlements (All_members settlements))
                  (λ u g. absurd (ground (arith, g))) (sym mine.found ∙ found),
              ground (arith, h.0, ap meets_firm found),
            )
          ])
          (All-both (λ c. free_test c ≡ true) (λ c. some_test c ≡ true)
            (λ c. (free_test c ≡ true) × (some_test c ≡ true)) (conflicting_rows rows)
            (λ c h k. (h, k)) free met)
          known

    not_superseded :
        (s : SettlementRow)
        → Any (λ y. y ≡ s) settlements
        → s.status ≡ en_firme
        → includes superseded s.id ≡ false
    not_superseded s here firm = elim (Bool-cases (includes superseded s.id)) [
      | inr kept ↦ kept
      | inl gone ↦
          let (c, (t, t_id, t_here, t_free), c_id) =
            Any_with_All MeetsOther (λ c. id_of c.current ≡ s.id) (conflicting_rows rows)
              meets_other
              (Any_of_includes-map (λ (c : Classified). id_of c.current) (conflicting_rows rows)
                s.id gone) in
          let same : s ≡ t = one_of_id settlements s t numbered here t_here (sym c_id ∙ t_id) in
          absurd (
            ground (
              arith,
              t_free,
              (status_beq_iff t.status en_firme).1
                  (sym (ap (λ (x : SettlementRow). x.status) same) ∙ firm),
            ))
    ]

    -- Every settlement that is EN_FIRME is still there after an import wrote settlements, EN_FIRME and no
    -- more replaced than before, where no two settlements share an id.
    pub write_settlements-firm :
        (r : Registry)
        → r.settlements ≡ settlements
        → All
            (λ s.
              s.status ≡ en_firme
              → Any
                  (λ t. (t.id ≡ s.id) × (t.status ≡ en_firme) × (t.replaced_at ≡ s.replaced_at))
                  (write_settlements municipality_id now current rows r).settlements)
            settlements
    unfolding write_settlements
    write_settlements-firm r same =
        let missing = newly_missing current rows in
        let change = after_updates municipality_id now superseded missing in
        let lem = after_updates_lem municipality_id now superseded missing in
        let new = new_settlements municipality_id r.next_settlement (free_rows rows) in
        rw (same, updates-eq municipality_id now superseded missing settlements)
          (All-mono (λ s. Any (λ y. y ≡ s) settlements)
            (λ s.
              s.status ≡ en_firme
              → Any (λ t. (t.id ≡ s.id) × (t.status ≡ en_firme) × (t.replaced_at ≡ s.replaced_at))
                  (map change settlements ++ new))
            settlements
            (λ s here firm.
              let P = λ (t : SettlementRow).
                (t.id ≡ s.id) × (t.status ≡ en_firme) × (t.replaced_at ≡ s.replaced_at) in
              let free : touches municipality_id now superseded missing superseded s ≡ false =
                rw (not_superseded s here firm) refl in
              (Any-append_iff P (map change settlements) new).1 (
                inl (
                  Any-map P change settlements (
                    Any-mono (λ y. y ≡ s) (λ y. P (change y)) settlements
                      (λ y e.
                        subst (λ z. P (change z)) (sym e)
                          ((lem s).4, (lem s).3 ∙ firm, (lem s).2 free))
                      here))))
            (All_members settlements))

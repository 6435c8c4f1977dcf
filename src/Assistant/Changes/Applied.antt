-- ===== src/Assistant/Changes/Applied.antt =====
-- The loop of updates: the rows that it leaves, and that no update of it misses its row.
use slomp.Prelude.{
  ℕ, ◌≤◌, ◌≡◌, ◌≢◌, refl, sym, ap, ◌∙◌, true, false, ◌&&◌, Option, none, some, List, [], ◌∷◌,
  if◌then◌else◌, ◌==◌, nat_eq, find, filter, length, arith, ok, All, Bool-cases, inl, inr,
}
use slomp.Database.Rows.{find-map, find_test}
use slomp.Settlements.Status.{SettlementStatus, status_eq, status_beq_iff}
use slomp.Settlements.Rows.{SettlementRow, is_claimed, set_status, claim_status}
use slomp.Assistant.Review.{AcceptedStatusChange}
use slomp.Assistant.Changes.{apply_changes, is_change}

abbrev pub find_in : ℕ → ℕ → List SettlementRow → Option SettlementRow
find_in m id rows = find (λ s. s.id == id && s.municipality_id == m) rows

-- Every change is about another settlement.
abbrev pub AreDistinct : List AcceptedStatusChange → Type 0
AreDistinct [] = Unit
AreDistinct (c ∷ cs) = All (λ d. d.settlement_id ≢ c.settlement_id) cs × AreDistinct cs

find-claim_other :
    (m id k : ℕ) (from to : SettlementStatus) (rows : List SettlementRow)
    → k ≢ id
    → find_in m id (claim_status k from to rows).0 ≡ find_in m id rows
find-claim_other m id k from to [] other = refl
find-claim_other m id k from to (row ∷ rows) other =
    ground (arith, find-claim_other m id k from to rows other)

find-claim_own :
    (m id : ℕ) (from to : SettlementStatus) (rows : List SettlementRow) (row : SettlementRow)
    → find_in m id rows ≡ some row
    → is_claimed id from row ≡ true
    → find_in m id (claim_status id from to rows).0 ≡ some (set_status to row)
find-claim_own m id from to rows row found claimed =
    let g = λ (s : SettlementRow). if is_claimed id from s then set_status to s else s in
    let hit : g row ≡ set_status to row = rw claimed refl in
    find-map (λ s. s.id == id && s.municipality_id == m) g rows row (λ s. ground arith) found
    ∙ ap some hit

count-claim_own :
    (m id : ℕ) (from : SettlementStatus) (rows : List SettlementRow) (row : SettlementRow)
    → find_in m id rows ≡ some row
    → is_claimed id from row ≡ true
    → 1 ≤ length (filter (is_claimed id from) rows)
count-claim_own m id from [] row found claimed = absurd (ground arith)
count-claim_own m id from (x ∷ rows) row found claimed =
    elim (Bool-cases (x.id == id && x.municipality_id == m)) [
      | inl hit ↦
          let same : x ≡ row = ground arith in
          let mine : is_claimed id from x ≡ true = rw same claimed in rw mine (omega arith)
      | inr miss ↦ ground (arith, count-claim_own m id from rows row)
    ]

-- A row that a change was accepted for: it is current and has the state that was read.
pub record IsClaimable (m : ℕ) (rows : List SettlementRow) (c : AcceptedStatusChange) : Type 0 where
  pub row : SettlementRow
  pub found : find_in m c.settlement_id rows ≡ some row
  pub current : row.replaced_at ≡ none
  pub status : row.status ≡ c.from

claimed_row :
    (m : ℕ) (rows : List SettlementRow) (c : AcceptedStatusChange) (h : IsClaimable m rows c)
    → is_claimed c.settlement_id c.from h.row ≡ true
claimed_row m rows c h = ground (
  arith,
  find_test (λ s. s.id == c.settlement_id && s.municipality_id == m) rows h.row h.found,
  (status_beq_iff h.row.status c.from).1 h.status,
)

abbrev claimed_rows : AcceptedStatusChange → List SettlementRow → List SettlementRow
claimed_rows c rows = (claim_status c.settlement_id c.from c.to rows).0

claimed_rows-IsClaimable :
    (m : ℕ) (rows : List SettlementRow) (c d : AcceptedStatusChange)
    → d.settlement_id ≢ c.settlement_id
    → IsClaimable m rows d
    → IsClaimable m (claimed_rows c rows) d
claimed_rows-IsClaimable m rows c d other h = record {
  row = h.row;
  found =
      find-claim_other m d.settlement_id c.settlement_id c.from c.to rows (λ e. other (sym e))
      ∙ h.found;
  current = h.current;
  status = h.status;
}

claimed_rows-AreClaimable :
    (m : ℕ) (rows : List SettlementRow) (c : AcceptedStatusChange) (xs : List AcceptedStatusChange)
    → All (λ d. d.settlement_id ≢ c.settlement_id) xs
    → All (IsClaimable m rows) xs
    → All (IsClaimable m (claimed_rows c rows)) xs
claimed_rows-AreClaimable m rows c [] others h = tt
claimed_rows-AreClaimable m rows c (d ∷ xs) (o, others) (h, hs) =
    (claimed_rows-IsClaimable m rows c d o h, claimed_rows-AreClaimable m rows c xs others hs)

-- The row of a change has its new state, and nothing else of it changed.
pub record IsApplied (m : ℕ) (before after : List SettlementRow) (c : AcceptedStatusChange)
    : Type 0 where
  pub row : SettlementRow
  pub found : find_in m c.settlement_id before ≡ some row
  pub now : find_in m c.settlement_id after ≡ some (set_status c.to row)

-- The rows of other settlements are as they were.
apply_others :
    (m id : ℕ) (xs : List AcceptedStatusChange) (rows rows' : List SettlementRow)
    → All (λ d. d.settlement_id ≢ id) xs
    → apply_changes (filter is_change xs) rows ≡ ok rows'
    → find_in m id rows' ≡ find_in m id rows
unfolding apply_changes
apply_others m id [] rows rows' others e = ap (find_in m id) (ground (arith, e))
apply_others m id (c ∷ xs) rows rows' (o, others) e = elim (Bool-cases (is_change c)) [
  | inr same ↦ apply_others m id xs rows rows' others (ground arith)
  | inl change ↦ elim (Bool-cases ((claim_status c.settlement_id c.from c.to rows).1 == 0)) [
    | inl lost ↦ absurd (ground arith)
    | inr claimed ↦
        apply_others m id xs (claimed_rows c rows) rows' others (ground arith)
        ∙ find-claim_other m id c.settlement_id c.from c.to rows o
  ]
]

set_before :
    (m : ℕ) (rows rows' : List SettlementRow) (c d : AcceptedStatusChange)
    → d.settlement_id ≢ c.settlement_id
    → IsApplied m (claimed_rows c rows) rows' d
    → IsApplied m rows rows' d
set_before m rows rows' c d other h = record {
  row = h.row;
  found =
      sym (find-claim_other m d.settlement_id c.settlement_id c.from c.to rows (λ e. other (sym e)))
      ∙ h.found;
  now = h.now;
}

All-set_before :
    (m : ℕ) (rows rows' : List SettlementRow) (c : AcceptedStatusChange)
    (xs : List AcceptedStatusChange)
    → All (λ d. d.settlement_id ≢ c.settlement_id) xs
    → All (IsApplied m (claimed_rows c rows) rows') xs
    → All (IsApplied m rows rows') xs
All-set_before m rows rows' c [] others h = tt
All-set_before m rows rows' c (d ∷ xs) (o, others) (h, hs) =
    (set_before m rows rows' c d o h, All-set_before m rows rows' c xs others hs)

set_status-same :
    (to : SettlementStatus) (row : SettlementRow) → row.status ≡ to → set_status to row ≡ row
set_status-same to row e = ap (λ x. record row { status = x }) (sym e)

-- Distinct changes whose rows are as they were read are applied, all of them.
pub apply_changes_lem :
    (m : ℕ) (xs : List AcceptedStatusChange) (rows : List SettlementRow)
    → AreDistinct xs
    → All (IsClaimable m rows) xs
    → (rows' : List SettlementRow) × (apply_changes (filter is_change xs) rows ≡ ok rows')
      × All (IsApplied m rows rows') xs
unfolding apply_changes
apply_changes_lem m [] rows d h = (rows, refl, tt)
apply_changes_lem m (c ∷ xs) rows (o, d) (h, hs) = elim (Bool-cases (is_change c)) [
  | inr same ↦
      let (rows', done, all_set) = apply_changes_lem m xs rows d hs in
      let to : h.row.status ≡ c.to =
        h.status ∙ (status_beq_iff c.from c.to).0 (ground (arith, same)) in
      (
        rows',
        rw same done,
        (
          record {
            row = h.row;
            found = h.found;
            now =
                apply_others m c.settlement_id xs rows rows' o done
                ∙ h.found
                ∙ ap some (sym (set_status-same c.to h.row to));
          },
          all_set,
        ),
      )
  | inl change ↦
      let claimed = claimed_row m rows c h in
      let count = count-claim_own m c.settlement_id c.from rows h.row h.found claimed in
      let marked : ((claim_status c.settlement_id c.from c.to rows).1 == 0) ≡ false =
        ground arith in
      let (rows', done, all_set) =
        apply_changes_lem m xs (claimed_rows c rows) d
          (claimed_rows-AreClaimable m rows c xs o hs) in
      (
        rows',
        rw (change, marked) done,
        (
          record {
            row = h.row;
            found = h.found;
            now =
                apply_others m c.settlement_id xs (claimed_rows c rows) rows' o done
                ∙ find-claim_own m c.settlement_id c.from c.to rows h.row h.found claimed;
          },
          All-set_before m rows rows' c xs o all_set,
        ),
      )
]

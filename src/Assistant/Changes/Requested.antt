-- ===== src/Assistant/Changes/Requested.antt =====
-- The changes of a request beside the rows they are found in and the review that accepts them.
use slomp.Prelude.{
  ℕ, ◌≡◌, ◌≢◌, refl, sym, ap, ◌∙◌, subst, Bool, true, false, ◌&&◌, Option, none, some, List, [],
  ◌∷◌, map, if◌then◌else◌, ◌==◌, nat_eq, beq_refl, includes, find, filter, arith, All, Bool-cases,
  inl, inr, get,
}
use slomp.Settlements.Status.{status_eq}
use slomp.Settlements.Rows.{SettlementRow, set_status}
use slomp.Assistant.Review.{StatusChangeRequest, AcceptedStatusChange, by_id}
use slomp.Assistant.Review.Reviewed.{
  accepted_of, IsKeyed, IsKeyed-filter, or_else, get-by_id, IsAllowed, IsReviewed, no_more,
  one_more,
}
use slomp.Assistant.Changes.{has_duplicate, requested}
use slomp.Assistant.Changes.Applied.{find_in, AreDistinct, IsClaimable, IsApplied}

-- A requested change whose settlement was found, is allowed, and has the requested state now.
pub record IsConfirmed (m now : ℕ) (before after : List SettlementRow) (c : StatusChangeRequest)
    : Type 0 where
  pub row : SettlementRow
  pub found : find_in m c.settlement_id before ≡ some row
  pub allowed : IsAllowed c now row
  pub set : find_in m c.settlement_id after ≡ some (set_status c.to_status row)

-- What is computed of each change that passes a test and its settlement as it was, in the order of
-- the changes.
unfoldable pub selected :
    {A : Type 0}
    → ℕ
    → (StatusChangeRequest → SettlementRow → Bool)
    → (StatusChangeRequest → SettlementRow → A)
    → List StatusChangeRequest
    → List SettlementRow
    → List A
selected m p f [] rows = []
selected m p f (c ∷ cs) rows =
    let rest = selected m p f cs rows in
    elim (find_in m c.settlement_id rows) [
      | none ↦ rest
      | some row ↦ if p c row then f c row ∷ rest else rest
    ]

find-requested :
    (m id : ℕ) (changes : List StatusChangeRequest) (rows : List SettlementRow)
    → includes (map (λ c. c.settlement_id) changes) id ≡ true
    → find (λ s. s.id == id) (requested m changes rows) ≡ find_in m id rows
find-requested m id changes [] h = refl
find-requested m id changes (row ∷ rows) h = elim (Bool-cases (row.id == id)) [
  | inl own ↦
      let same : row.id ≡ id = ground arith in
      let listed : includes (map (λ c. c.settlement_id) changes) row.id ≡ true =
        subst (λ i. includes (map (λ c. c.settlement_id) changes) i ≡ true) (sym same) h in
      elim (Bool-cases (row.municipality_id == m)) [
        | inl here ↦ rw (listed, here, own) refl
        | inr there ↦ rw (listed, there, own) (find-requested m id changes rows h)
      ]
  | inr other ↦
      elim (Bool-cases
        (includes (map (λ c. c.settlement_id) changes) row.id && row.municipality_id == m)) [
          | inl kept ↦ rw (kept, other) (find-requested m id changes rows h)
          | inr left ↦ rw (left, other) (find-requested m id changes rows h)
        ]
]

-- The ids of the accepted changes are those of the request.
pub ids_of_reviewed :
    {m : List (ℕ × SettlementRow)} {now : ℕ} {cs : List StatusChangeRequest}
    {xs : List AcceptedStatusChange}
    → IsReviewed m now cs xs
    → map (λ x. x.settlement_id) xs ≡ map (λ c. c.settlement_id) cs
ids_of_reviewed no_more = refl
ids_of_reviewed (one_more c row found allowed more) =
    ap (◌∷◌ c.settlement_id) (ids_of_reviewed more)

others_of :
    (id : ℕ) (xs : List AcceptedStatusChange)
    → includes (map (λ x. x.settlement_id) xs) id ≡ false
    → All (λ d. d.settlement_id ≢ id) xs
others_of id [] h = tt
others_of id (x ∷ xs) h =
    ((λ e. absurd (ground (arith, beq_refl id))), others_of id xs (ground arith))

pub distinct_of :
    (xs : List AcceptedStatusChange)
    → has_duplicate (map (λ x. x.settlement_id) xs) ≡ false
    → AreDistinct xs
unfolding has_duplicate
distinct_of [] h = tt
distinct_of (x ∷ xs) h =
    elim (Bool-cases (includes (map (λ y. y.settlement_id) xs) x.settlement_id)) [
      | inl again ↦ absurd (ground arith)
      | inr fresh ↦ (others_of x.settlement_id xs fresh, distinct_of xs (ground arith))
    ]

found_of :
    (m id : ℕ) (changes : List StatusChangeRequest) (rows : List SettlementRow)
    (row : SettlementRow)
    → IsKeyed rows
    → includes (map (λ c. c.settlement_id) changes) id ≡ true
    → get (by_id [] (requested m changes rows)) id ≡ some row
    → find_in m id rows ≡ some row
found_of m id changes rows row keyed listed e =
    let all_keyed =
      IsKeyed-filter
        (λ s. includes (map (λ c. c.settlement_id) changes) s.id && s.municipality_id == m) rows
        keyed in
    let looked = get-by_id id [] (requested m changes rows) all_keyed in
    let found = find-requested m id changes rows listed in
    sym found ∙ some_of (find (λ s. s.id == id) (requested m changes rows)) (sym looked ∙ e)
  where
    some_of : (o : Option SettlementRow) → or_else o none ≡ some row → o ≡ some row
    some_of none e = e
    some_of (some r) e = e

-- The changes whose ids are among those of the request.
abbrev pub AreListed : List StatusChangeRequest → List StatusChangeRequest → Type 0
AreListed changes = All (λ c. includes (map (λ x. x.settlement_id) changes) c.settlement_id ≡ true)

listed_more :
    (c : StatusChangeRequest) (changes cs : List StatusChangeRequest)
    → AreListed changes cs
    → AreListed (c ∷ changes) cs
listed_more c changes [] h = tt
listed_more c changes (d ∷ cs) (h, hs) = (ground (arith, h), listed_more c changes cs hs)

pub listed : (cs : List StatusChangeRequest) → AreListed cs cs
listed [] = tt
listed (c ∷ cs) = (ground (arith, beq_refl c.settlement_id), listed_more c cs cs (listed cs))

module _ (m now : ℕ) (changes : List StatusChangeRequest) (rows : List SettlementRow)
    (keyed : IsKeyed rows) where
  abbrev pub Reviewed : List StatusChangeRequest → List AcceptedStatusChange → Type 0
  Reviewed = IsReviewed (by_id [] (requested m changes rows)) now

  pub IsClaimable-Reviewed :
      {cs : List StatusChangeRequest} {xs : List AcceptedStatusChange}
      → Reviewed cs xs
      → AreListed changes cs
      → All (IsClaimable m rows) xs
  IsClaimable-Reviewed no_more h = tt
  IsClaimable-Reviewed (one_more c row found allowed more) (h, hs) = (
    record {
      row = row;
      found = found_of m c.settlement_id changes rows row keyed h found;
      current = allowed.current;
      status = refl;
    },
    IsClaimable-Reviewed more hs,
  )

  pub IsConfirmed-Reviewed :
      (after : List SettlementRow) {cs : List StatusChangeRequest} {xs : List AcceptedStatusChange}
      → Reviewed cs xs
      → AreListed changes cs
      → All (IsApplied m rows after) xs
      → All (IsConfirmed m now rows after) cs
  IsConfirmed-Reviewed after no_more h s = tt
  IsConfirmed-Reviewed after (one_more c row found allowed more) (h, hs) (s, ss) =
      let own = found_of m c.settlement_id changes rows row keyed h found in
      let same : s.row ≡ row = ground (arith, s.found, own) in
      (
        record {
          row = row;
          found = own;
          allowed = allowed;
          set = s.now ∙ ap (λ r. some (set_status c.to_status r)) same;
        },
        IsConfirmed-Reviewed after more hs ss,
      )

  -- What is computed of the accepted changes that pass a test.
  pub map-filter-Reviewed :
      {A : Type 0} (p : AcceptedStatusChange → Bool) (f : AcceptedStatusChange → A)
      {cs : List StatusChangeRequest} {xs : List AcceptedStatusChange}
      → Reviewed cs xs
      → AreListed changes cs
      → map f (filter p xs)
        ≡ selected m (λ c row. p (accepted_of c row)) (λ c row. f (accepted_of c row)) cs rows
  unfolding selected
  map-filter-Reviewed p f no_more h = refl
  map-filter-Reviewed p f (one_more c row found allowed more) (h, hs) =
      let own = found_of m c.settlement_id changes rows row keyed h found in
      let rest = map-filter-Reviewed p f more hs in
      elim (Bool-cases (p (accepted_of c row))) [
        | inl hit ↦ rw (own, selected, hit) (ap (◌∷◌ (f (accepted_of c row))) rest)
        | inr miss ↦ rw (own, selected, miss) rest
      ]

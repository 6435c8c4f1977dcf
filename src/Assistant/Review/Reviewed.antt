-- ===== src/Assistant/Review/Reviewed.antt =====
-- A review without rejections found every requested settlement, and its rules allow the change.
use slomp.Prelude.{
  ℕ, ◌≡◌, refl, sym, ap, ◌∙◌, subst, Bool, false, Option, none, some, List, [], ◌∷◌, ◌++◌, ◌==◌,
  nat_eq, includes, get, set, get-set, find, filter, is_some, arith, All, All-filter, Bool-cases,
  inl, inr,
}
use mathlib.Core.List.{append-nil, append_assoc}
use slomp.Database.Rows.{find-none}
use slomp.Settlements.Status.{status_eq, is_transition_allowed}
use slomp.Settlements.Status.Transitions.{MaySet, is_transition_allowed_iff}
use slomp.Settlements.Rows.{SettlementRow, context_of}
use slomp.Assistant.Review.{
  StatusChangeRequest, AcceptedStatusChange, StatusChangeReview, subject_of, allowed_statuses_of,
  by_id, Verdict, accepts, rejects, review_row, push, review_from,
}

-- No two rows have the same id: it is the table's primary key.
abbrev pub IsKeyed : List SettlementRow → Type 0
IsKeyed [] = Unit
IsKeyed (row ∷ rows) = All (λ s. (s.id == row.id) ≡ false) rows × IsKeyed rows

pub IsKeyed-filter :
    (p : SettlementRow → Bool) (rows : List SettlementRow) → IsKeyed rows → IsKeyed (filter p rows)
IsKeyed-filter p [] h = tt
IsKeyed-filter p (row ∷ rows) (h, hs) =
    ground (arith, All-filter (λ s. (s.id == row.id) ≡ false) p rows h, IsKeyed-filter p rows hs)

abbrev pub or_else : Option SettlementRow → Option SettlementRow → Option SettlementRow
or_else none o = o
or_else (some row) o = some row

pub get-by_id :
    (id : ℕ) (m : List (ℕ × SettlementRow)) (rows : List SettlementRow)
    → IsKeyed rows
    → get (by_id m rows) id ≡ or_else (find (λ s. s.id == id) rows) (get m id)
unfolding by_id
get-by_id id m [] h = refl
get-by_id id m (row ∷ rows) (h, hs) = elim (Bool-cases (row.id == id)) [
  | inr other ↦
      rw (other, get-by_id id (set m row.id row) rows hs, get-set m row.id id row, other) refl
  | inl hit ↦
      let gone : find (λ s. s.id == id) rows ≡ none =
        find-none (λ s. s.id == id) rows
          (subst (λ i. All (λ s. (s.id == i) ≡ false) rows) (ground arith) h) in
      rw (hit, get-by_id id (set m row.id row) rows hs, gone, get-set m row.id id row, hit) refl
]

-- What a change was checked against.
pub record IsAllowed (c : StatusChangeRequest) (now : ℕ) (row : SettlementRow) : Type 0 where
  pub current : row.replaced_at ≡ none
  pub allowed : MaySet (context_of row now) c.to_status

abbrev pub accepted_of : StatusChangeRequest → SettlementRow → AcceptedStatusChange
accepted_of c row = record {
  settlement_id = c.settlement_id;
  subject = subject_of row;
  from = row.status;
  to = c.to_status;
}

-- Every change with the row that it was accepted for.
pub data IsReviewed (m : List (ℕ × SettlementRow)) (now : ℕ)
    : List StatusChangeRequest → List AcceptedStatusChange → Type 0 where
  no_more : IsReviewed m now [] []
  one_more :
      {cs : List StatusChangeRequest} {xs : List AcceptedStatusChange} (c : StatusChangeRequest)
      (row : SettlementRow)
      → get m c.settlement_id ≡ some row
      → IsAllowed c now row
      → IsReviewed m now cs xs
      → IsReviewed m now (c ∷ cs) (accepted_of c row ∷ xs)

snoc-nil : {A : Type 0} (xs : List A) (x : A) → (xs ++ x ∷ []) ≡ [] → ⊥
snoc-nil [] x e = cc
snoc-nil (y ∷ xs) x e = cc

accepts_of :
    (review : StatusChangeReview) (v : Verdict)
    → (push review v).rejected ≡ []
    → (a : AcceptedStatusChange) × (v ≡ accepts a)
accepts_of review (accepts a) e = (a, refl)
accepts_of review (rejects r) e = absurd (snoc-nil review.rejected r e)

not_rejected :
    (c : StatusChangeRequest) (now : ℕ) (o : Option SettlementRow) (review : StatusChangeReview)
    → (push review (review_row c now o)).rejected ≡ []
    → (row : SettlementRow) × (o ≡ some row)
      × IsAllowed c now row
      × (push review (review_row c now o)
          ≡ record review { accepted = review.accepted ++ accepted_of c row ∷ [] })
unfolding is_transition_allowed
not_rejected c now none review e =
    let (a, verdict) = accepts_of review (review_row c now none) e in absurd (ground arith)
not_rejected c now (some row) review e =
    let (a, verdict) = accepts_of review (review_row c now (some row)) e in
    elim (Bool-cases (is_some row.replaced_at)) [
      | inl gone ↦ absurd (ground arith)
      | inr current ↦ elim (Bool-cases (includes (allowed_statuses_of row now) c.to_status)) [
        | inr refused ↦ absurd (ground arith)
        | inl allowed ↦ (
          row,
          refl,
          record {
            current = ground arith;
            allowed = (is_transition_allowed_iff (context_of row now) c.to_status).0 allowed;
          },
          rw (current, allowed) refl,
        )
      ]
    ]

rejected_stays :
    (m : List (ℕ × SettlementRow)) (now : ℕ) (review : StatusChangeReview)
    (cs : List StatusChangeRequest)
    → (review_from m now review cs).rejected ≡ []
    → review.rejected ≡ []
unfolding review_from
rejected_stays m now review [] e = e
rejected_stays m now review (c ∷ cs) e =
    let pushed =
      rejected_stays m now (push review (review_row c now (get m c.settlement_id))) cs e in
    let (row, found, allowed, same) = not_rejected c now (get m c.settlement_id) review pushed in
    sym (ap (λ r. r.rejected) same) ∙ pushed

pub review_from-IsReviewed :
    (m : List (ℕ × SettlementRow)) (now : ℕ) (review : StatusChangeReview)
    (cs : List StatusChangeRequest)
    → (review_from m now review cs).rejected ≡ []
    → (xs : List AcceptedStatusChange) × ((review_from m now review cs).accepted
        ≡ review.accepted ++ xs)
      × IsReviewed m now cs xs
unfolding review_from
review_from-IsReviewed m now review [] e = ([], sym (append-nil review.accepted), no_more)
review_from-IsReviewed m now review (c ∷ cs) e =
    let next : StatusChangeReview = push review (review_row c now (get m c.settlement_id)) in
    let (row, found, allowed, same) =
      not_rejected c now (get m c.settlement_id) review (rejected_stays m now next cs e) in
    let (xs, accepted, reviewed) = review_from-IsReviewed m now next cs e in
    (
      accepted_of c row ∷ xs,
      accepted
          ∙ ap (λ r. r.accepted ++ xs) same
          ∙ append_assoc review.accepted (accepted_of c row ∷ []) xs,
      one_more c row found allowed reviewed,
    )

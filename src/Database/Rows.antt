-- ===== src/Database/Rows.antt =====
-- What every row of a table satisfies, through its statements.
use slomp.Prelude.{
  ◌≡◌, refl, ap, subst, Bool, true, false, not, none, some, List, [], ◌∷◌, ◌++◌, map, arith, filter,
  find, All, All-append, All-filter, Bool-cases, inl, inr,
}
use slomp.Database.{Table, update_where}

pub find-All {κ} :
    {Row : Type 0} (P : Row → Type κ) (p : Row → Bool) (rs : List Row) (r : Row)
    → find p rs ≡ some r
    → All P rs
    → P r
find-All P p [] r e h = absurd (ground arith)
find-All P p (x ∷ rs) r e (h, hs) = elim (Bool-cases (p x)) [
  | inl hit ↦ subst P (ground arith) h
  | inr miss ↦ find-All P p rs r (ground arith) hs
]

pub find_test :
    {Row : Type 0} (p : Row → Bool) (rs : List Row) (r : Row) → find p rs ≡ some r → p r ≡ true
find_test p [] r e = absurd (ground arith)
find_test p (x ∷ rs) r e = elim (Bool-cases (p x)) [
  | inl hit ↦ subst (λ y. p y ≡ true) (ground arith) hit
  | inr miss ↦ find_test p rs r (ground arith)
]

pub find-none :
    {Row : Type 0} (p : Row → Bool) (rs : List Row) → All (λ r. p r ≡ false) rs → find p rs ≡ none
find-none p [] h = refl
find-none p (x ∷ rs) (h, hs) = rw h (find-none p rs hs)

pub All-update_where {κ μ} :
    {Row : Type 0} (P : Row → Type κ) (Q : Row → Type μ) (p : Row → Bool) (f : Row → Row)
    (rs : List Row)
    → ((r : Row) → p r ≡ true → P r → Q (f r))
    → ((r : Row) → p r ≡ false → P r → Q r)
    → All P rs
    → All Q (update_where p f rs)
All-update_where P Q p f [] hit miss h = tt
All-update_where P Q p f (x ∷ rs) hit miss (h, hs) = (
  elim (Bool-cases (p x)) [ inl e ↦ rw e (hit x e h) | inr e ↦ rw e (miss x e h) ],
  All-update_where P Q p f rs hit miss hs,
)

module _ {Row : Type 0} (t : Table Row) where
  open t use {
    State, rows, update_many, create_many, delete_many, rows-update_many, rows-create_many,
    rows-delete_many,
  }

  -- Every row of the table satisfies `P`.
  abbrev pub Each {κ} : (Row → Type κ) → State → Type κ
  Each P s = All P (rows s)

  module _ {κ} (P : Row → Type κ) where
    pub Each-update_many {μ} :
        (Q : Row → Type μ) (p : Row → Bool) (f : Row → Row) (s : State)
        → ((r : Row) → p r ≡ true → P r → Q (f r))
        → ((r : Row) → p r ≡ false → P r → Q r)
        → Each P s
        → Each Q (update_many p f s).0
    Each-update_many Q p f s hit miss h =
        rw (rows-update_many p f s) (All-update_where P Q p f (rows s) hit miss h)

    pub Each-create_many :
        (new : List Row) (s : State) → All P new → Each P s → Each P (create_many new s)
    Each-create_many new s n h = rw (rows-create_many new s) (All-append P (rows s) new h n)

    pub Each-delete_many : (p : Row → Bool) (s : State) → Each P s → Each P (delete_many p s)
    Each-delete_many p s h = rw (rows-delete_many p s) (All-filter P (λ r. not (p r)) (rows s) h)

-- A lookup after a change that keeps what the lookup tests.
pub find-map :
    {Row : Type 0} (p : Row → Bool) (g : Row → Row) (rs : List Row) (r : Row)
    → ((x : Row) → p (g x) ≡ p x)
    → find p rs ≡ some r
    → find p (map g rs) ≡ some (g r)
find-map p g [] r same e = absurd (ground arith)
find-map p g (x ∷ rs) r same e = elim (Bool-cases (p x)) [
  | inl hit ↦ rw (same x, hit) (ap (λ y. some (g y)) (ground arith))
  | inr miss ↦ rw (same x, miss) (find-map p g rs r same (ground arith))
]

pub find-append_some :
    {Row : Type 0} (p : Row → Bool) (rs new : List Row) (r : Row)
    → find p rs ≡ some r
    → find p (rs ++ new) ≡ some r
find-append_some p [] new r e = absurd (ground arith)
find-append_some p (x ∷ rs) new r e = ground (arith, find-append_some p rs new r)

pub find-append_none :
    {Row : Type 0} (p : Row → Bool) (rs new : List Row)
    → All (λ r. p r ≡ false) rs
    → find p (rs ++ new) ≡ find p new
find-append_none p [] new h = refl
find-append_none p (x ∷ rs) new (h, hs) = rw h (find-append_none p rs new hs)

pub filter-none :
    {Row : Type 0} (p : Row → Bool) (rs : List Row) → All (λ r. p r ≡ false) rs → filter p rs ≡ []
filter-none p [] h = refl
filter-none p (x ∷ rs) (h, hs) = rw h (filter-none p rs hs)

pub update_where-none :
    {Row : Type 0} (p : Row → Bool) (f : Row → Row) (rs : List Row)
    → ((r : Row) → p r ≡ false)
    → update_where p f rs ≡ rs
update_where-none p f [] miss = refl
update_where-none p f (r ∷ rs) miss = rw (miss r) (ap (◌∷◌ r) (update_where-none p f rs miss))

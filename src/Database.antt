-- ===== src/Database.antt =====
-- What the code relies on of Prisma and PostgreSQL, which are not part of the repository: tables
-- with their statements, and counters with an atomic upsert. Each interface states the documented
-- effect of its statements on the rows; the lists below it show that it can be implemented.
pub mod Rows
use slomp.Prelude.{
  ℕ, ◌+◌, ◌≡◌, refl, Bool, true, false, not, Option, none, some, List, [], ◌∷◌, ◌++◌, map, arith,
  if◌then◌else◌, length, filter, get, set, get-set, get-set_self, pair_eq, nat_eq, ◌==◌, Eq,
}

-- The rows that match are changed, the others stay, and the order does not change.
abbrev pub update_where : {Row : Type 0} → (Row → Bool) → (Row → Row) → List Row → List Row
update_where p f = map (λ r. if p r then f r else r)

pub record Table (Row : Type 0) : Type 1 where
  pub State : Type 0
  pub rows : State → List Row
  -- updateMany returns the number of rows that matched.
  pub update_many : (Row → Bool) → (Row → Row) → State → State × ℕ
  pub create_many : List Row → State → State
  pub delete_many : (Row → Bool) → State → State
  pub rows-update_many :
      (p : Row → Bool) (f : Row → Row) (s : State)
      → rows (update_many p f s).0 ≡ update_where p f (rows s)
  pub count-update_many :
      (p : Row → Bool) (f : Row → Row) (s : State)
      → (update_many p f s).1 ≡ length (filter p (rows s))
  pub rows-create_many : (new : List Row) (s : State) → rows (create_many new s) ≡ rows s ++ new
  pub rows-delete_many :
      (p : Row → Bool) (s : State) → rows (delete_many p s) ≡ filter (λ r. not (p r)) (rows s)

abbrev pub list_table : (Row : Type 0) → Table Row
list_table Row = record {
  State = List Row;
  rows = λ s. s;
  update_many = λ p f s. (update_where p f s, length (filter p s));
  create_many = λ new s. s ++ new;
  delete_many = λ p s. filter (λ r. not (p r)) s;
  rows-update_many = λ p f s. refl;
  count-update_many = λ p f s. refl;
  rows-create_many = λ new s. refl;
  rows-delete_many = λ p s. refl;
}

-- The value that an upsert leaves in a counter.
abbrev pub upserted : Option ℕ → ℕ → ℕ → ℕ
upserted none create increment = create
upserted (some last) create increment = last + increment

-- Counters per municipality and year: `upsert key create increment` returns the new value.
pub record Counters : Type 1 where
  pub State : Type 0
  pub last : State → ℕ × ℕ → Option ℕ
  pub upsert : ℕ × ℕ → ℕ → ℕ → State → State × ℕ
  pub upsert_result :
      (k : ℕ × ℕ) (create increment : ℕ) (s : State)
      → (upsert k create increment s).1 ≡ upserted (last s k) create increment
  pub last-upsert :
      (k j : ℕ × ℕ) (create increment : ℕ) (s : State)
      → last (upsert k create increment s).0 j
        ≡ (if k == j then some (upserted (last s k) create increment) else last s j)

abbrev map_upsert : ℕ × ℕ → ℕ → ℕ → List ((ℕ × ℕ) × ℕ) → List ((ℕ × ℕ) × ℕ) × ℕ
map_upsert k create increment s = let v = upserted (get s k) create increment in (set s k v, v)

abbrev pub map_counters : Counters
map_counters = record {
  State = List ((ℕ × ℕ) × ℕ);
  last = get;
  upsert = map_upsert;
  upsert_result = λ k create increment s. refl;
  last-upsert = λ k j create increment s. get-set s k j (upserted (get s k) create increment);
}

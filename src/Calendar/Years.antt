-- ===== src/Calendar/Years.antt =====
-- How far apart two dates are that differ by whole years.
use slomp.Prelude.{
  ℕ, zero, suc, ◌+◌, ◌-◌, ◌*◌, ◌/◌, ◌≤◌, ◌<◌, ◌≡◌, refl, Bool, true, false, ◌&&◌, arith, leb,
}
use slomp.Calendar.{day_ms, day_from_year, year_down, year_of_day, is_leap, move_day, add_years}

year_down_bounds :
    (k day : ℕ)
    → day < day_from_year (1970 + suc k)
    → (day_from_year (year_down k day) ≤ day)
      × (day < day_from_year (suc (year_down k day)))
      × (1970 ≤ year_down k day)
unfolding year_down day_from_year
year_down_bounds zero day h = omega arith
year_down_bounds (suc k) day h = ground (arith, year_down_bounds k day)

-- The year of a day is the one that the day lies in.
pub year_of_day_bounds :
    (day : ℕ)
    → (day_from_year (year_of_day day) ≤ day)
      × (day < day_from_year (suc (year_of_day day)))
      × (1970 ≤ year_of_day day)
unfolding year_of_day
year_of_day_bounds day = year_down_bounds (day / 365) day (unfold day_from_year in omega arith)

-- A test that every number below a bound passes.
passes_below : (ℕ → Bool) → ℕ → Bool
passes_below test zero = true
passes_below test (suc bound) = passes_below test bound && test bound

passes :
    (test : ℕ → Bool) (bound d : ℕ) → d < bound → passes_below test bound ≡ true → test d ≡ true
unfolding passes_below
passes test zero d below table = absurd (omega arith)
passes test (suc bound) d below table = ground (arith, passes test bound d)

near : Bool → Bool → ℕ → Bool
near l l' d = leb d (move_day l l' d + 1) && leb (move_day l l' d) (d + 1)

near_table : (l l' : Bool) → passes_below (near l l') 366 ≡ true
unfolding passes_below near move_day
near_table true true = refl
near_table true false = refl
near_table false true = refl
near_table false false = refl

-- The same date in another year is at most one day further from January 1.
move_day_bounds :
    (l l' : Bool) (d : ℕ) → d < 366 → (d ≤ move_day l l' d + 1) × (move_day l l' d ≤ d + 1)
unfolding near
move_day_bounds l l' d h = ground (arith, passes (near l l') 366 d h (near_table l l'))

pub day_from_year_five :
    (y : ℕ)
    → 1970 ≤ y
    → (day_from_year y + 1825 ≤ day_from_year (y + 5))
      × (day_from_year (y + 5) ≤ day_from_year y + 1827)
      × (day_from_year (suc y) ≤ day_from_year y + 366)
unfolding day_from_year
day_from_year_five y h = omega arith

-- Five years later is between 1824 and 1828 days later, at the same time of the day.
pub add_years_five :
    (t : ℕ) → (t + 1824 * day_ms ≤ add_years t 5) × (add_years t 5 ≤ t + 1828 * day_ms)
unfolding add_years
add_years_five t =
    let day : ℕ = t / day_ms in
    let y : ℕ = year_of_day day in
    let b = year_of_day_bounds day in
    let f = day_from_year_five y b.2 in
    let m = move_day_bounds (is_leap y) (is_leap (y + 5)) (day - day_from_year y) (omega arith) in
    omega arith

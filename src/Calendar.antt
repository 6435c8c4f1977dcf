-- ===== src/Calendar.antt =====
-- What the code uses of JavaScript's Date: time values in milliseconds since 1970-01-01 UTC, and
-- the year arithmetic of setFullYear in the proleptic Gregorian calendar (ECMA-262, MakeDay).
-- Times before 1970 are left out.
pub mod Years
use slomp.Prelude.{
  ℕ, zero, suc, ◌+◌, ◌-◌, ◌*◌, ◌/◌, ◌%◌, Bool, true, false, ◌&&◌, ◌||◌, not, List, [], ◌∷◌, leb,
  ltb, if◌then◌else◌, ◌==◌, nat_eq,
}

abbrev pub day_ms : ℕ
day_ms = 86400000

pub is_leap : ℕ → Bool
is_leap y = y % 4 == 0 && not (y % 100 == 0) || y % 400 == 0

-- DayFromYear: the day on which a year from 1970 on begins.
pub day_from_year : ℕ → ℕ
day_from_year y = 365 * (y - 1970) + (y - 1969) / 4 + (y - 1601) / 400 - (y - 1901) / 100

-- YearFromTime, searched downwards from 1970 + k.
pub year_down : ℕ → ℕ → ℕ
unfolding day_from_year
year_down zero day = 1970
year_down (suc k) day =
    let earlier = year_down k day in
    if leb (day_from_year (1970 + suc k)) day then 1970 + suc k else earlier

pub year_of_day : ℕ → ℕ
unfolding year_down
year_of_day day = year_down (day / 365) day

abbrev pub month_lengths : Bool → List ℕ
month_lengths leap =
    31 ∷ (if leap then 29 else 28) ∷ 31 ∷ 30 ∷ 31 ∷ 30 ∷ 31 ∷ 31 ∷ 30 ∷ 31 ∷ 30 ∷ 31 ∷ []

-- The month (from 0) and the day of the month (from 0) of a day of the year.
pub split_day : List ℕ → ℕ → ℕ × ℕ
split_day [] d = (0, d)
split_day (len ∷ rest) d =
    let (m, dt) = split_day rest (d - len) in if ltb d len then (0, d) else (suc m, dt)

pub month_start : List ℕ → ℕ → ℕ
month_start [] m = 0
month_start (len ∷ rest) zero = 0
month_start (len ∷ rest) (suc m) = len + month_start rest m

-- The day of another year with the same month and day of the month: Feb 29 overflows to Mar 1.
pub move_day : Bool → Bool → ℕ → ℕ
unfolding split_day month_start
move_day leap leap' d =
    let (m, dt) = split_day (month_lengths leap) d in month_start (month_lengths leap') m + dt

-- `date.setFullYear(date.getFullYear() + years)`, on a clock in UTC.
pub add_years : ℕ → ℕ → ℕ
unfolding is_leap day_from_year year_of_day move_day
add_years t years =
    let day = t / day_ms in
    let y = year_of_day day in
    let y' = y + years in
    (day_from_year y' + move_day (is_leap y) (is_leap y') (day - day_from_year y)) * day_ms
    + t % day_ms

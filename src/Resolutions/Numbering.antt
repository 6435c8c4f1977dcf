-- ===== src/Resolutions/Numbering.antt =====
-- apps/backend/src/resolutions/reserve-resolution-number.ts and
-- apps/backend/src/payment-orders/payment-order-number.ts. A text is the list of its characters'
-- codes; years, sequences and counts are natural numbers, so that Number.isInteger holds by type.
pub mod Decimal
pub mod Reserve
use slomp.Prelude.{
  ℕ, zero, suc, ◌+◌, ◌-◌, ◌*◌, ◌/◌, ◌%◌, List, [], ◌∷◌, ◌++◌, map, Result, ok, err, ◌>>=◌, ◌>>◌,
  throw_if, leb, ltb, if◌then◌else◌, length, ◌==◌, nat_eq,
}
use slomp.Database.{Counters}

-- `String(n)`: the decimal digits in front of `acc`; `fuel` bounds their number.
pub digits : ℕ → ℕ → List ℕ → List ℕ
digits zero n acc = acc
digits (suc fuel) n acc =
    let more = digits fuel (n / 10) ((b'0' + n % 10) ∷ acc) in
    if ltb n 10 then (b'0' + n) ∷ acc else more

unfoldable pub decimal : ℕ → List ℕ
unfolding digits
decimal n = digits (suc n) n []

pub zeros : ℕ → List ℕ
zeros zero = []
zeros (suc n) = b'0' ∷ zeros n

-- `text.padStart(4, '0')`
unfoldable pub pad_start : ℕ → List ℕ → List ℕ
unfolding zeros
pad_start width text = zeros (width - length text) ++ text

pub data NumberError : Type 0 where
  year_not_positive sequence_not_positive count_not_positive : NumberError

unfoldable pub format_resolution_number : ℕ → ℕ → Result NumberError (List ℕ)
unfolding decimal pad_start
format_resolution_number year sequence = do
  throw_if (leb year 0) year_not_positive
  throw_if (leb sequence 0) sequence_not_positive
  ok (decimal year ++ b'-' ∷ pad_start 4 (decimal sequence))

pub record ReservedNumber : Type 0 where
  pub year : ℕ
  pub sequence : ℕ
  pub number : List ℕ

module _ (c : Counters) where
  open c use {State, upsert}

  unfoldable pub reserve_resolution_number :
      ℕ → ℕ → State → Result NumberError (State × ReservedNumber)
  reserve_resolution_number municipality_id year s = do
    throw_if (leb year 0) year_not_positive
    let (s', last_sequence) = upsert (municipality_id, year) 1 1 s
    number ← format_resolution_number year last_sequence
    ok (s', record { year = year; sequence = last_sequence; number = number })

unfoldable pub format_payment_order_number : ℕ → ℕ → Result NumberError (List ℕ)
unfolding format_resolution_number
format_payment_order_number year sequence = format_resolution_number year sequence

-- `Array.from({ length: count }, …)` over the sequences from `first` on
pub numbers_from : ℕ → ℕ → ℕ → Result NumberError (List ReservedNumber)
numbers_from zero year first = ok []
numbers_from (suc count) year first = do
  number ← format_payment_order_number year first
  rest ← numbers_from count year (first + 1)
  ok (record { year = year; sequence = first; number = number } ∷ rest)

module _ (c : Counters) where
  open c use {State, upsert}

  unfoldable pub reserve_payment_order_numbers :
      ℕ → ℕ → ℕ → State → Result NumberError (State × List ReservedNumber)
  unfolding numbers_from
  reserve_payment_order_numbers municipality_id year count s = do
    throw_if (leb year 0) year_not_positive
    throw_if (leb count 0) count_not_positive
    let (s', last_sequence) = upsert (municipality_id, year) count count s
    numbers ← numbers_from count year (last_sequence - count + 1)
    ok (s', numbers)

-- ===== src/Resolutions/Numbering/Reserve.antt =====
-- What a reservation leaves in the counter and which sequences it hands out.
use slomp.Prelude.{
  All, ◌∙◌, ◌++◌, ℕ, zero, suc, ◌+◌, ◌-◌, ◌<◌, ◌≡◌, refl, ap, Option, none, some, get_or, List, [],
  ◌∷◌, map, ok, arith, if◌then◌else◌, ◌==◌, nat_eq, pair_eq,
}
use slomp.Database.{Counters, upserted}
use slomp.Resolutions.Numbering.{
  decimal, pad_start, ReservedNumber, format_resolution_number, format_payment_order_number,
  numbers_from, reserve_resolution_number, reserve_payment_order_numbers,
}

-- first, first + 1, …, as many as `count`.
abbrev pub consecutive : ℕ → ℕ → List ℕ
consecutive zero first = []
consecutive (suc count) first = first ∷ consecutive count (first + 1)

format_total :
    (year sequence : ℕ)
    → 0 < year
    → 0 < sequence
    → (text : List ℕ) × (format_resolution_number year sequence ≡ ok text)
unfolding format_resolution_number
format_total year sequence h k =
    (decimal year ++ b'-' ∷ pad_start 4 (decimal sequence), ground arith)

-- A number of the year, with the text of that year and its sequence.
abbrev pub IsPrinted : ℕ → ReservedNumber → Type 0
IsPrinted year n = (n.year ≡ year) × (format_resolution_number year n.sequence ≡ ok n.number)

numbers_from_lem :
    (count year first : ℕ)
    → 0 < year
    → 0 < first
    → (ns : List ReservedNumber) × (numbers_from count year first ≡ ok ns)
      × (map (λ n. n.sequence) ns ≡ consecutive count first)
      × All (IsPrinted year) ns
unfolding numbers_from format_payment_order_number
numbers_from_lem zero year first h k = ([], refl, refl, tt)
numbers_from_lem (suc count) year first h k =
    let (text, printed) = format_total year first h k in
    let (ns, e, same, all) = numbers_from_lem count year (first + 1) h (omega arith) in
    (
      record { year = year; sequence = first; number = text } ∷ ns,
      rw (printed, e) refl,
      ap (◌∷◌ first) same,
      ((refl, printed), all),
    )

module _ (c : Counters) where
  open c use {State, last, upsert, upsert_result, last-upsert}

  -- The last sequence used, 0 before the first.
  abbrev pub used : State → ℕ × ℕ → ℕ
  used s k = get_or (last s k) 0

  upserted_lem : (o : Option ℕ) (n : ℕ) → upserted o n n ≡ get_or o 0 + n
  upserted_lem none n = omega arith
  upserted_lem (some l) n = refl

  module _ (municipality_id year : ℕ) (s : State) (dated : 0 < year) where
    -- For a positive year and count, a reservation of payment order numbers succeeds, hands out the
    -- `count` sequences that follow the last one used, each as a number of that year with the text
    -- of the year and the sequence, and moves only its own counter, by `count`.
    pub reserve_payment_order_numbers_lem :
        (count : ℕ)
        → 0 < count
        → (s' : State) × (ns : List ReservedNumber) × (reserve_payment_order_numbers c
              municipality_id year count s
            ≡ ok (s', ns))
          × (map (λ n. n.sequence) ns ≡ consecutive count (used s (municipality_id, year) + 1))
          × All (IsPrinted year) ns
          × ((k : ℕ × ℕ)
              → last s' k ≡ (
                  if (municipality_id, year) == k
                  then some (used s (municipality_id, year) + count)
                  else last s k))
    unfolding reserve_payment_order_numbers
    reserve_payment_order_numbers_lem count positive =
        let key : ℕ × ℕ = (municipality_id, year) in
        let r = upsert_result key count count s in
        let u = upserted_lem (last s key) count in
        let first = (upsert key count count s).1 - count + 1 in
        let (ns, e, same, all) = numbers_from_lem count year first dated (omega arith) in
        (
          (upsert key count count s).0,
          ns,
          ground (arith, e),
          same ∙ ap (consecutive count) (ground (arith, r, u)),
          all,
          λ k. ground (arith, last-upsert key k count count s, u),
        )

    -- For a positive year, a reservation of a resolution number succeeds, hands out the sequence
    -- that follows the last one used, as a number of that year with the text of the year and the
    -- sequence, and moves only its own counter, by one.
    reserve_resolution_number_lem :
        (s' : State) × (n : ReservedNumber) × (reserve_resolution_number c municipality_id year s
          ≡ ok (s', n))
        × (n.sequence ≡ used s (municipality_id, year) + 1)
        × IsPrinted year n
        × ((k : ℕ × ℕ)
            → last s' k ≡ (
                if (municipality_id, year) == k
                then some (used s (municipality_id, year) + 1)
                else last s k))
    unfolding reserve_resolution_number
    reserve_resolution_number_lem =
        let key : ℕ × ℕ = (municipality_id, year) in
        let r = upsert_result key 1 1 s in
        let u = upserted_lem (last s key) 1 in
        let sequence = (upsert key 1 1 s).1 in
        let (text, printed) = format_total year sequence dated (omega arith) in
        (
          (upsert key 1 1 s).0,
          record { year = year; sequence = sequence; number = text },
          ground (arith, printed),
          r ∙ u,
          (refl, printed),
          λ k. ground (arith, last-upsert key k 1 1 s, u),
        )

-- ===== src/Resolutions/Tests.antt =====
-- Numbers at concrete inputs.
use slomp.Prelude.{
  ℕ, ◌≡◌, refl, some, List, [], ◌∷◌, map, arith, if◌then◌else◌, ◌==◌, pair_eq, nat_eq, ok, codes,
  All,
}
use slomp.Database.{map_counters}
use slomp.Resolutions.Numbering.{
  ReservedNumber, format_resolution_number, decimal, pad_start, reserve_payment_order_numbers,
}
use slomp.Resolutions.Numbering.Reserve.{IsPrinted, consecutive, reserve_payment_order_numbers_lem}

printed : format_resolution_number 2026 42 ≡ ok (codes "2026-0042")
unfolding format_resolution_number decimal pad_start
printed = refl

abbrev counters : List ((ℕ × ℕ) × ℕ)
counters = ((3, 2026), 41) ∷ []

reserve_payment_order_numbers_lem_example :
    (s' : List ((ℕ × ℕ) × ℕ)) × (ns : List ReservedNumber) × (reserve_payment_order_numbers
        map_counters 3 2026 2 counters
      ≡ ok (s', ns))
    × (map (λ n. n.sequence) ns ≡ consecutive 2 42)
    × All (IsPrinted 2026) ns
    × ((k : ℕ × ℕ)
        → map_counters.last s' k
          ≡ (if (3, 2026) == k then some 43 else map_counters.last counters k))
reserve_payment_order_numbers_lem_example =
    reserve_payment_order_numbers_lem map_counters 3 2026 counters (omega arith) 2 (omega arith)

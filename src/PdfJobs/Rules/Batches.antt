-- ===== src/PdfJobs/Rules/Batches.antt =====
-- Splitting into batches: nothing is lost, no batch is empty or too large, and splitting into chunks
-- of whole batches first makes no difference.
use slomp.Prelude.{
  ℕ, zero, suc, ◌≤◌, ◌<◌, ◌≡◌, refl, ap, ◌∙◌, List, [], ◌∷◌, ◌++◌, arith, take, drop, length,
  take-append-drop, length-drop, All,
}
use slomp.PdfJobs.Rules.{batches_from, split_into_batches}

module _ {A : Type 0} where
  -- All the batches' items, in order.
  abbrev pub joined : List (List A) → List A
  joined [] = []
  joined (b ∷ bs) = b ++ joined bs

  abbrev pub IsBatch : ℕ → List A → Type 0
  IsBatch size b = (1 ≤ length b) × (length b ≤ size)

  length-take-le : (n : ℕ) (xs : List A) → length (take n xs) ≤ n
  length-take-le zero xs = omega arith
  length-take-le (suc n) [] = omega arith
  length-take-le (suc n) (x ∷ xs) = omega (arith, length-take-le n xs)

  take-pos : (n : ℕ) (x : A) (xs : List A) → 0 < n → 1 ≤ length (take n (x ∷ xs))
  take-pos zero x xs h = absurd (omega arith)
  take-pos (suc n) x xs h = omega arith

  batches_from_lem :
      (fuel size : ℕ) (items : List A)
      → 0 < size
      → length items ≤ fuel
      → (joined (batches_from fuel items size) ≡ items)
        × All (IsBatch size) (batches_from fuel items size)
  unfolding batches_from
  batches_from_lem zero size [] h e = (refl, tt)
  batches_from_lem zero size (x ∷ xs) h e = absurd (omega arith)
  batches_from_lem (suc fuel) size [] h e = (refl, tt)
  batches_from_lem (suc fuel) size (x ∷ xs) h e =
      let d = length-drop size (x ∷ xs) in
      let (same, all) = batches_from_lem fuel size (drop size (x ∷ xs)) h (omega arith) in
      (
        ap (◌++◌ (take size (x ∷ xs))) same ∙ take-append-drop size (x ∷ xs),
        ((take-pos size x xs h, length-take-le size (x ∷ xs)), all),
      )

  -- For a positive size, the batches hold the items in order, and each holds between one and `size`
  -- of them.
  split_into_batches_lem :
      (items : List A) (size : ℕ)
      → 0 < size
      → (joined (split_into_batches items size) ≡ items)
        × All (IsBatch size) (split_into_batches items size)
  unfolding split_into_batches
  split_into_batches_lem items size h = batches_from_lem (length items) size items h (omega arith)

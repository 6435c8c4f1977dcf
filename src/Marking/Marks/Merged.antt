-- ===== src/Marking/Marks/Merged.antt =====
-- Merging neighbouring marks changes no marked character.
use slomp.Prelude.{
  ℕ, ◌≤◌, ◌<◌, ◌≡◌, sym, ◌↔◌, ◌⊎◌, inl, inr, Bool, true, ◌&&◌, List, [], ◌∷◌, All, Any, ◌==◌,
  nat_eq, list_eq, pair_eq, arith, Bool-cases, list_beq_iff, pair_beq_iff, ltb, ◌∙◌,
}
use slomp.Prelude.Sorting.{sort_with, All-sort_with, Any-sort_with_iff}
use slomp.Prelude.Texts.{Text}
use slomp.Templates.Document.{BlockId, Selection}
use slomp.Marking.Marks.{merge_from, merge, merge_adjacent, in_reading_order}

-- The mark is of the field and holds the character of the block.
abbrev pub Holds : BlockId → Text → ℕ → Selection → Type 0
Holds block_id field at m =
    (m.block_id ≡ block_id) × (m.field ≡ field) × (m.start ≤ at) × (at < m.end)

abbrev pub IsOrdered : Selection → Type 0
IsOrdered m = m.start ≤ m.end

module _ (block_id : BlockId) (field : Text) (at : ℕ) where
  abbrev IsMarked : List Selection → Type 0
  IsMarked = Any (Holds block_id field at)

  abbrev goes_on : Selection → Selection → Bool
  goes_on last m = last.block_id == m.block_id && last.field == m.field && last.end == m.start

  Holds-longer :
      (last m : Selection)
      → goes_on last m ≡ true
      → IsOrdered last
      → IsOrdered m
      → Holds block_id field at (record last { end = m.end })
        ↔ (Holds block_id field at last ⊎ Holds block_id field at m)
  Holds-longer last m on o o' =
      let id = (pair_beq_iff last.block_id m.block_id).0 (ground (arith, on)) in
      let name = (list_beq_iff last.field m.field).0 (ground (arith, on)) in
      let touch : last.end ≡ m.start = ground (arith, on) in
      (
        λ h. elim (Bool-cases (ltb at last.end)) [
          | inl first ↦ inl (h.0, h.1, h.2, ground arith)
          | inr second ↦ inr (sym id ∙ h.0, sym name ∙ h.1, ground arith, h.3)
        ],
        λ h. elim h [
          | inl (a, b, c, d) ↦ (a, b, c, omega arith)
          | inr (a, b, c, d) ↦ (id ∙ a, name ∙ b, omega arith, d)
        ],
      )

  merge_from_iff :
      (last : Selection) (ms : List Selection)
      → IsOrdered last
      → All IsOrdered ms
      → IsMarked (merge_from last ms) ↔ IsMarked (last ∷ ms)
  unfolding merge_from
  merge_from_iff last [] o os = (λ h. h, λ h. h)
  merge_from_iff last (m ∷ ms) o (o', os) = elim (Bool-cases (goes_on last m)) [
    | inl on ↦
        let touch : last.end ≡ m.start = ground (arith, on) in
        let rest = merge_from_iff (record last { end = m.end }) ms (omega arith) os in
        let same = Holds-longer last m on o o' in
        rw on (
          λ h. elim (rest.0 h) [
            | inl p ↦ elim (same.0 p) [ inl a ↦ inl a | inr b ↦ inr (inl b) ]
            | inr q ↦ inr (inr q)
          ],
          λ h. rest.1 (elim h [
            | inl a ↦ inl (same.1 (inl a))
            | inr (inl b) ↦ inl (same.1 (inr b))
            | inr (inr q) ↦ inr q
          ]),
        )
    | inr apart ↦
        let rest = merge_from_iff m ms o' os in
        rw apart (
          λ h. elim h [ inl a ↦ inl a | inr q ↦ inr (rest.0 q) ],
          λ h. elim h [ inl a ↦ inl a | inr q ↦ inr (rest.1 q) ],
        )
  ]

  merge_iff : (ms : List Selection) → All IsOrdered ms → IsMarked (merge ms) ↔ IsMarked ms
  unfolding merge
  merge_iff [] os = (λ h. h, λ h. h)
  merge_iff (m ∷ ms) (o, os) = merge_from_iff m ms o os

  -- A character of a block is in a mark of a field after the marks are merged exactly when it was
  -- before, whatever the order of the block ids, where no mark ends before it starts.
  pub merge_adjacent_iff :
      (before : BlockId → BlockId → Bool) (ms : List Selection)
      → All IsOrdered ms
      → Any (Holds block_id field at) (merge_adjacent before ms) ↔ Any (Holds block_id field at) ms
  unfolding merge_adjacent
  merge_adjacent_iff before ms os =
      let le = in_reading_order before in
      let merged = merge_iff (sort_with le ms) (All-sort_with le IsOrdered ms os) in
      let sorted = Any-sort_with_iff le (Holds block_id field at) ms in
      (λ h. sorted.0 (merged.0 h), λ h. merged.1 (sorted.1 h))

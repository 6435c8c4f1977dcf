-- ===== src/Templates/Selections/Written.antt =====
-- The markers of one paragraph are written where its selections are.
use slomp.Prelude.{
  ℕ, ◌≤◌, ◌<◌, ◌≡◌, refl, sym, ap, ◌∙◌, true, false, List, [], ◌∷◌, ◌++◌, if◌then◌else◌, ◌==◌,
  nat_eq, length, take, drop, All, All-mono, All-both, arith, Pairwise, Bool-cases, inl, inr, ok,
  length-append, subst,
}
use slomp.Prelude.Sorting.{
  sort_by, sort_with, IsSorted, sort_by-IsSorted, Pairwise-of_sort_by, Pairwise-sort_with,
  IsInOrder, sort_with-IsInOrder, All-sort_with, All-sort_by,
}
use slomp.Prelude.Texts.{length-take}
use slomp.Templates.Catalog.{FieldCatalog}
use slomp.Templates.Dom.{NodeId, Store, text_of, replace_range}
use slomp.Templates.Dom.Replaced.{AreDistinct, replace_range-text}
use slomp.Templates.Dom.Substituted.{Replacement, substituted, substituted-append, IsRange}
use slomp.Templates.Markers.{marker_for}
use slomp.Templates.Selections.{
  Indexed, overlaps, start_of, later_first, check_neighbours, check_sorted, write_marks,
}

abbrev pub replacement_of : FieldCatalog → Indexed → Replacement
replacement_of catalog i = record {
  start = i.selection.start;
  end = i.selection.end;
  text = marker_for catalog i.selection.field;
}

-- The loop of a table has no marker of its own, so its selection replaces nothing.
pub replacements : FieldCatalog → List Indexed → List Replacement
replacements catalog [] = []
replacements catalog (i ∷ group) =
    let rest = replacements catalog group in
    if length (marker_for catalog i.selection.field) == 0
    then rest
    else replacement_of catalog i ∷ rest

abbrev pub InText : ℕ → Indexed → Type 0
InText size i = (i.selection.start < i.selection.end) × (i.selection.end ≤ size)

abbrev IsAfter : Indexed → Indexed → Type 0
IsAfter i j = j.selection.end ≤ i.selection.start

replacements-IsRange :
    (catalog : FieldCatalog) (size : ℕ) (group : List Indexed)
    → All (InText size) group
    → All (IsRange size) (replacements catalog group)
unfolding replacements
replacements-IsRange catalog size [] h = tt
replacements-IsRange catalog size (i ∷ group) (h, hs) =
    let rest = replacements-IsRange catalog size group hs in
    elim (Bool-cases (length (marker_for catalog i.selection.field) == 0)) [
      | inl no_text ↦ rw no_text rest
      | inr text ↦ rw text (h, rest)
    ]

write_marks-text :
    (catalog : FieldCatalog) (ts : List NodeId) (group : List Indexed) (s : Store)
    → AreDistinct ts
    → All (InText (length (text_of s ts))) group
    → Pairwise IsAfter group
    → text_of (write_marks catalog ts group s) ts
      ≡ substituted (text_of s ts) (replacements catalog group)
unfolding write_marks replacements
write_marks-text catalog ts [] s d h p = refl
write_marks-text catalog ts (i ∷ group) s d (h, hs) (p, ps) =
    let marker = marker_for catalog i.selection.field in
    elim (Bool-cases (length marker == 0)) [
      | inl no_text ↦ rw (no_text, write_marks) (write_marks-text catalog ts group s d hs ps)
      | inr text ↦
          let start = i.selection.start in
          let end = i.selection.end in
          let old = text_of s ts in
          let s' = replace_range ts start end marker s in
          let before = take start old in
          let size : length before ≡ start = ground (arith, length-take start old) in
          let new : text_of s' ts ≡ before ++ (marker ++ drop end old) =
            (replace_range-text ts start end marker s d h.0 (omega arith)).0 in
          let short : All (InText start) group =
            All-both (InText (length old)) (IsAfter i) (InText start) group (λ j a b. (a.0, b)) hs
              p in
          let within : All (InText (length (text_of s' ts))) group =
            All-mono (InText start) (InText (length (text_of s' ts))) group
              (λ j a.
                (a.0, omega (arith, ap length new, length-append before (marker ++ drop end old))))
              short in
          rw (text, write_marks)
            (write_marks-text catalog ts group s' d within ps
              ∙ ap (λ t. substituted t (replacements catalog group)) new
              ∙ substituted-append before (marker ++ drop end old) (replacements catalog group) (
                  replacements-IsRange catalog (length before) group
                    (subst (λ n. All (InText n) group) (sym size) short)))
    ]

abbrev AreApart : Indexed → Indexed → Type 0
AreApart i j = overlaps i.selection j.selection ≡ false

AreApart-swap : (i j : Indexed) → AreApart i j → AreApart j i
AreApart-swap i j h = ground arith

-- In ascending order, neighbours that do not overlap leave no two that do.
neighbours_apart :
    (first : Indexed) (group : List Indexed) (size : ℕ)
    → check_neighbours first group ≡ ok tt
    → IsSorted start_of (first ∷ group)
    → All (InText size) (first ∷ group)
    → All (λ j. first.selection.end ≤ j.selection.start) group × Pairwise AreApart (first ∷ group)
unfolding check_neighbours
neighbours_apart first [] size h s w = (tt, (tt, tt))
neighbours_apart first (second ∷ group) size h (a, s) (w, ws) =
    elim (Bool-cases (overlaps first.selection second.selection)) [
      | inl hit ↦ absurd (ground (arith, rw hit at h))
      | inr clear ↦
          let (after, apart) = neighbours_apart second group size (rw clear at h) s ws in
          let here : first.selection.end ≤ second.selection.start =
            ground (arith, clear, a.0, w.0, ws.0.0) in
          let later : All (λ j. first.selection.end ≤ j.selection.start) group =
            All-mono (λ j. second.selection.end ≤ j.selection.start)
              (λ j. first.selection.end ≤ j.selection.start) group (λ j q. omega (arith, ws.0.0))
              after in
          (
            (here, later),
            (
              (
                clear,
                All-mono (λ j. first.selection.end ≤ j.selection.start) (AreApart first) group
                    (λ j q. ground arith) later,
              ),
              apart,
            ),
          )
    ]

sorted_apart :
    (group : List Indexed) (size : ℕ)
    → check_sorted group ≡ ok tt
    → IsSorted start_of group
    → All (InText size) group
    → Pairwise AreApart group
sorted_apart [] size h s w = tt
sorted_apart (first ∷ group) size h s w = (neighbours_apart first group size h s w).1

IsAfter-of :
    (group : List Indexed) (size : ℕ)
    → IsInOrder later_first group
    → Pairwise AreApart group
    → All (InText size) group
    → Pairwise IsAfter group
IsAfter-of [] size o p w = tt
IsAfter-of (i ∷ group) size (o, os) (p, ps) (w, ws) = (
  All-both (λ j. (later_first i j ≡ true) × AreApart i j) (InText size) (IsAfter i) group
      (λ j h k. ground (arith, h.0, h.1, k.0, w.0))
      (All-both (λ j. later_first i j ≡ true) (AreApart i)
        (λ j. (later_first i j ≡ true) × AreApart i j) group (λ j h k. (h, k)) o p)
      ws,
  IsAfter-of group size os ps ws,
)

-- Where the selections of a paragraph pass the check of overlaps and each selects some of its text, the
-- paragraph's text becomes the old one with every selected range replaced by its field's marker, and
-- with the text of a selection whose field has no marker kept.
pub write_marks_lem :
    (catalog : FieldCatalog) (ts : List NodeId) (group : List Indexed) (s : Store)
    → AreDistinct ts
    → All (InText (length (text_of s ts))) group
    → check_sorted (sort_by start_of group) ≡ ok tt
    → text_of (write_marks catalog ts (sort_with later_first group) s) ts
      ≡ substituted (text_of s ts) (replacements catalog (sort_with later_first group))
write_marks_lem catalog ts group s d w checked =
    let size = length (text_of s ts) in
    let apart : Pairwise AreApart group =
      Pairwise-of_sort_by start_of AreApart group AreApart-swap (
        sorted_apart (sort_by start_of group) size checked (sort_by-IsSorted start_of group)
          (All-sort_by start_of (InText size) group w)) in
    let within = All-sort_with later_first (InText size) group w in
    write_marks-text catalog ts (sort_with later_first group) s d within (
      IsAfter-of (sort_with later_first group) size
        (sort_with-IsInOrder later_first (λ i j h. ground arith) (λ i j k h g. ground arith) group)
        (Pairwise-sort_with later_first AreApart group AreApart-swap apart) within)

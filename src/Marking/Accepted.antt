-- ===== src/Marking/Accepted.antt =====
-- The check of overlaps in applySelections (apps/backend/src/templates/guided-marking.ts) beside the
-- screen's checks of ranges (apps/frontend/src/domain/templateMarking.ts).
use slomp.Prelude.{
  ℕ, ◌+◌, true, false, ◌&&◌, none, List, [], ◌∷◌, ◌++◌, get, set, get_or, ◌==◌, nat_eq, list_eq,
  pair_eq, beq_sym, find, ok, ◌≡◌, refl, sym, ◌∙◌, subst, All, All-mono, All_of_all, All-append,
  All-both, Pairwise, Pairwise-append_one, arith, Bool-cases, inl, inr, ltb,
}
use slomp.Prelude.Sorting.{sort_by, All-sort_by, Pairwise-sort_by}
use slomp.Templates.Document.{BlockId, Selection}
use slomp.Templates.Selections.{
  Indexed, Groups, group_from, start_of, check_neighbours, check_sorted, check_markers, hits,
  check_groups, MarkingError,
}
use slomp.Templates.Selections
use slomp.Marking.Pieces.{range_of, range_problem}
use slomp.Marking.Pieces.Ranges.{MarksApart, range_problem-MarksApart}
use mathlib.Core.List.{append-nil, append_assoc}

module _ {V : Type 0} (P : BlockId × V → Type 0) where
  set-All : (m : List (BlockId × V)) (b : BlockId) (v : V) → P (b, v) → All P m → All P (set m b v)
  set-All [] b v p h = (p, tt)
  set-All ((c, w) ∷ m) b v p (q, h) = elim (Bool-cases (c == b)) [
    | inl same ↦ rw same (subst (λ d. P (d, v)) (sym ((pair_eq.equals_iff c b).0 same)) p, h)
    | inr other ↦ rw other (q, set-All m b v p h)
  ]

module _ {V : Type 0} (P : BlockId × List V → Type 0) where
  get-All :
      (m : List (BlockId × List V)) (b : BlockId) → P (b, []) → All P m → P (b, get_or (get m b) [])
  get-All [] b p h = p
  get-All ((c, w) ∷ m) b p (q, h) = elim (Bool-cases (c == b)) [
    | inl same ↦ rw same (subst (λ d. P (d, w)) ((pair_eq.equals_iff c b).0 same) q)
    | inr other ↦ rw other (get-All m b p h)
  ]

abbrev ItemsApart : Indexed → Indexed → Type 0
ItemsApart i j = MarksApart i.selection j.selection

module _ (existing : List Selection) where
  -- A selection of a block that overlaps no marker of the document.
  abbrev IsOf : BlockId → Indexed → Type 0
  IsOf b i = (i.selection.block_id ≡ b) × All (λ m. MarksApart m i.selection) existing

  abbrev GroupApart : BlockId × List Indexed → Type 0
  GroupApart (b, group) = All (IsOf b) group × Pairwise ItemsApart group

  -- A selection overlaps none of those that are grouped.
  abbrev ApartFrom : Selection → BlockId × List Indexed → Type 0
  ApartFrom s (b, group) = All (λ (i : Indexed). MarksApart i.selection s) group

  group_from-GroupApart :
      (groups : Groups) (index : ℕ) (selections : List Selection)
      → All GroupApart groups
      → All (λ s. All (ApartFrom s) groups) selections
      → Pairwise MarksApart selections
      → All (λ s. All (λ m. MarksApart m s) existing) selections
      → All GroupApart (group_from groups index selections)
  unfolding group_from
  group_from-GroupApart groups index [] g pending apart fits = g
  group_from-GroupApart groups index (s ∷ selections) g (p, pending) (a, apart) (f, fits) =
      let b = s.block_id in
      let group : List Indexed = get_or (get groups b) [] in
      let last : Indexed = record { selection = s; index = index } in
      let grouped : GroupApart (b, group) = get-All GroupApart groups b (tt, tt) g in
      let apart_from : ApartFrom s (b, group) = get-All (ApartFrom s) groups b tt p in
      group_from-GroupApart (set groups b (group ++ last ∷ [])) (index + 1) selections
        (set-All GroupApart groups b (group ++ last ∷ [])
          (
            All-append (IsOf b) group (last ∷ []) grouped.0 ((refl, f), tt),
            Pairwise-append_one ItemsApart group last grouped.1 apart_from,
          )
          g)
        (All-both (MarksApart s) (λ t. All (ApartFrom t) groups)
          (λ t. All (ApartFrom t) (set groups b (group ++ last ∷ []))) selections
          (λ t q h.
            set-All (ApartFrom t) groups b (group ++ last ∷ [])
              (All-append (λ (i : Indexed). MarksApart i.selection t) group (last ∷ [])
                (get-All (ApartFrom t) groups b tt h) (q, tt))
              h)
          a pending)
        apart fits

  -- The overlap of two selections of one block, which the server tests without the block.
  same_block :
      (a b : Selection) → a.block_id ≡ b.block_id → MarksApart a b → Selections.overlaps a b ≡ false
  same_block a b same apart =
      let e : (a.block_id == b.block_id) ≡ true =
        (pair_eq.equals_iff a.block_id b.block_id).1 same in
      rw e at apart

  check_neighbours_lem :
      (b : BlockId) (first : Indexed) (group : List Indexed)
      → All (IsOf b) (first ∷ group)
      → Pairwise ItemsApart (first ∷ group)
      → check_neighbours first group ≡ ok tt
  unfolding check_neighbours
  check_neighbours_lem b first [] h p = refl
  check_neighbours_lem b first (second ∷ group) (x, (y, h)) ((q, qs), p) =
      rw (same_block first.selection second.selection (x.0 ∙ sym y.0) q)
        (check_neighbours_lem b second group (y, h) p)

  MarksApart-sym : (a b : Selection) → MarksApart a b → MarksApart b a
  MarksApart-sym a b apart = elim (Bool-cases (a.block_id == b.block_id)) [
    | inl same ↦
        let e : (b.block_id == a.block_id) ≡ true = beq_sym b.block_id a.block_id ∙ same in
        let f : (ltb a.start b.end && ltb b.start a.end) ≡ false = rw same at apart in
        rw e (ground arith)
    | inr other ↦
        let e : (b.block_id == a.block_id) ≡ false = beq_sym b.block_id a.block_id ∙ other in
        rw e refl
  ]

  check_sorted_lem :
      (b : BlockId) (group : List Indexed)
      → All (IsOf b) group
      → Pairwise ItemsApart group
      → check_sorted group ≡ ok tt
  check_sorted_lem b [] h p = refl
  check_sorted_lem b (first ∷ group) h p = check_neighbours_lem b first group h p

  -- No marker of the block is hit.
  hits-none :
      (b : BlockId) (m : Selection) (group : List Indexed)
      → m.block_id ≡ b
      → All (λ (i : Indexed). (i.selection.block_id ≡ b) × MarksApart m i.selection) group
      → hits group m ≡ false
  hits-none b m [] of h = refl
  hits-none b m (i ∷ group) of ((j, a), h) =
      rw (same_block m i.selection (of ∙ sym j) a) (hits-none b m group of h)

  find-none :
      (b : BlockId) (group : List Indexed) (markers : List Selection)
      → All
          (λ (i : Indexed).
            (i.selection.block_id ≡ b) × All (λ m. MarksApart m i.selection) markers)
          group
      → find (λ (m : Selection). m.block_id == b && hits group m) markers ≡ none
  find-none b group [] h = refl
  find-none b group (m ∷ markers) h =
      let rest : find (λ (n : Selection). n.block_id == b && hits group n) markers ≡ none =
        find-none b group markers (All-mono _ _ group (λ i (j, (a, more)). (j, more)) h) in
      elim (Bool-cases (m.block_id == b)) [
        | inl same ↦
            let missed : hits group m ≡ false =
              hits-none b m group ((pair_eq.equals_iff m.block_id b).0 same)
                (All-mono _ _ group (λ i (j, (a, more)). (j, a)) h) in
            rw (same, missed) rest
        | inr other ↦ rw other rest
      ]

  check_markers_lem :
      (b : BlockId) (group : List Indexed)
      → All (IsOf b) group
      → check_markers existing b group ≡ ok tt
  check_markers_lem b group of = rw (find-none b group existing of, check_markers) refl

  check_groups_lem :
      (groups : Groups) → All GroupApart groups → check_groups existing groups ≡ ok tt
  unfolding check_groups
  check_groups_lem [] h = refl
  check_groups_lem ((b, group) ∷ groups) ((of, apart), h) =
      rw
        (
          check_sorted_lem b (sort_by start_of group) (All-sort_by start_of (IsOf b) group of) (
              Pairwise-sort_by start_of ItemsApart group
                (λ i j. MarksApart-sym i.selection j.selection) apart),
          check_markers_lem b group of,
        )
        (check_groups_lem groups h)

-- Each mark was added on a range in which the screen saw no problem beside the marks before it.
abbrev pub ArePlaced : List Selection → List Selection → Type 0
ArePlaced marks [] = Unit
ArePlaced marks (s ∷ selections) =
    (range_problem (range_of s) marks ≡ none) × ArePlaced (marks ++ s ∷ []) selections

placed-apart :
    (marks selections : List Selection)
    → Pairwise MarksApart marks
    → ArePlaced marks selections
    → Pairwise MarksApart (marks ++ selections)
placed-apart marks [] apart placed = subst (Pairwise MarksApart) (sym (append-nil marks)) apart
placed-apart marks (s ∷ selections) apart (fine, placed) =
    subst (Pairwise MarksApart) (append_assoc marks (s ∷ []) selections) (
      placed-apart (marks ++ s ∷ []) selections (range_problem-MarksApart s marks apart fine)
        placed)

All-of_append : (P : Selection → Type 0) (xs ys : List Selection) → All P (xs ++ ys) → All P ys
All-of_append P [] ys h = h
All-of_append P (x ∷ xs) ys (p, h) = All-of_append P xs ys h

Pairwise-of_append :
    (xs ys : List Selection)
    → Pairwise MarksApart (xs ++ ys)
    → Pairwise MarksApart ys × All (λ s. All (λ m. MarksApart m s) xs) ys
Pairwise-of_append [] ys h = (h, All_of_all (λ s. Unit) ys (λ s. tt))
Pairwise-of_append (x ∷ xs) ys (a, h) =
    let (apart, each) = Pairwise-of_append xs ys h in
    (
      apart,
      All-both (MarksApart x) (λ s. All (λ m. MarksApart m s) xs)
          (λ s. All (λ m. MarksApart m s) (x ∷ xs)) ys (λ s q r. (q, r))
          (All-of_append (MarksApart x) xs ys a) each,
    )

-- Where the markers of a document overlap none of one another, and each selection was placed on a
-- range in which the screen saw no problem, the server finds no overlap, neither of two selections
-- nor of a selection and a marker.
pub placed_accepted :
    (existing selections : List Selection)
    → Pairwise MarksApart existing
    → ArePlaced existing selections
    → check_groups existing (group_from [] 0 selections) ≡ ok tt
placed_accepted existing selections apart placed =
    let (among, beside) =
      Pairwise-of_append existing selections (placed-apart existing selections apart placed) in
    check_groups_lem existing (group_from [] 0 selections) (
      group_from-GroupApart existing [] 0 selections tt
        (All_of_all (λ s. Unit) selections (λ s. tt)) among beside)

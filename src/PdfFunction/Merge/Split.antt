-- ===== src/PdfFunction/Merge/Split.antt =====
-- What the parts of a merged PDF hold.
use slomp.Prelude.{
  ℕ, suc, true, false, Option, none, some, List, [], ◌∷◌, ◌++◌, nat_eq, length, drop, take, ◌≡◌,
  refl, sym, ap, ◌∙◌, ◌≤◌, ◌<◌, All, arith, Bool-cases, inl, inr, subst, length-drop, set, All-map,
  list_eq,
}
use mathlib.Core.List.{append-nil}
use slomp.Prelude.Sorting.{sort_with, All-sort_with}
use slomp.Prelude.Texts.{Text, starts_with, slice, joined, slice-join, take_all, length-take}
use slomp.PdfFunction.Merge.{
  Pdf, start_name, starts_map, by_name, start_pages, has_step_back, is_split, page_ranges,
  split_pages,
}

slice_end : (first : ℕ) (pages : List ℕ) → slice first (length pages) pages ≡ drop first pages
slice_end first pages = ap (drop first) (take_all (length pages) pages (omega arith))

-- The pages from `first` on, given the starts from there.
ranges-joined :
    (pages : List ℕ) (first : ℕ) (rest : List ℕ)
    → has_step_back first rest ≡ false
    → All (λ p. p < length pages) (first ∷ rest)
    → joined (page_ranges pages (first ∷ rest)) ≡ drop first pages
ranges-joined pages first [] h (b, none_left) =
    append-nil (slice first (length pages) pages) ∙ slice_end first pages
ranges-joined pages first (next ∷ rest) h (b, (c, bs)) =
    ap (◌++◌ (slice first next pages)) (ranges-joined pages next rest (ground arith) (c, bs))
    ∙ ap (◌++◌ (slice first next pages)) (sym (slice_end next pages))
    ∙ slice-join first next (length pages) pages (ground arith) (ground arith)
    ∙ slice_end first pages

ranges-nonempty :
    (pages : List ℕ) (first : ℕ) (rest : List ℕ)
    → has_step_back first rest ≡ false
    → All (λ p. p < length pages) (first ∷ rest)
    → All (λ part. 1 ≤ length part) (page_ranges pages (first ∷ rest))
ranges-nonempty pages first [] h (b, none_left) = (
  omega (arith, length-drop first (take (length pages) pages), length-take (length pages) pages),
  tt,
)
ranges-nonempty pages first (next ∷ rest) h (b, (c, bs)) = (
  ground (arith, length-drop first (take next pages), length-take next pages),
  ranges-nonempty pages next rest (ground arith) (c, bs),
)

length-page_ranges : (pages starts : List ℕ) → length (page_ranges pages starts) ≡ length starts
length-page_ranges pages [] = refl
length-page_ranges pages (first ∷ []) = refl
length-page_ranges pages (first ∷ next ∷ rest) = ap suc (length-page_ranges pages (next ∷ rest))

-- A named destination that leads to a page leads to one of the first `n`.
abbrev pub LeadsInto : ℕ → Text × Option ℕ → Type 0
LeadsInto n (name, none) = Unit
LeadsInto n (name, some index) = index < n

set-below :
    (n : ℕ) (m : List (Text × ℕ)) (k : Text) (v : ℕ)
    → v < n
    → All (λ b. b.1 < n) m
    → All (λ b. b.1 < n) (set m k v)
set-below n [] k v below h = (below, tt)
set-below n ((j, w) ∷ m) k v below (p, h) = ground (arith, set-below n m k v below h)

starts_map-below :
    (n : ℕ) (destinations : List (Text × Option ℕ)) (starts : List (Text × ℕ))
    → All (LeadsInto n) destinations
    → All (λ b. b.1 < n) starts
    → All (λ b. b.1 < n) (starts_map destinations starts)
starts_map-below n [] starts h k = k
starts_map-below n ((name, none) ∷ rest) starts (h, hs) k = starts_map-below n rest starts hs k
starts_map-below n ((name, some index) ∷ rest) starts (h, hs) k =
    elim (Bool-cases (starts_with name start_name)) [
      | inl named ↦
          rw named
            (starts_map-below n rest (set starts name index) hs (set-below n starts name index h k))
      | inr other ↦ rw other (starts_map-below n rest starts hs k)
    ]

start_pages-below :
    (pdf : Pdf)
    → All (LeadsInto (length pdf.pages)) pdf.destinations
    → All (λ p. p < length pdf.pages) (start_pages pdf)
unfolding start_pages
start_pages-below pdf h =
    let n = length pdf.pages in
    All-map (λ p. p < n) (λ b. b.1) (sort_with by_name (starts_map pdf.destinations []))
      (All-sort_with by_name (λ b. b.1 < n) (starts_map pdf.destinations [])
        (starts_map-below n pdf.destinations [] h tt))

some_inj : (a b : List (List ℕ)) → some a ≡ some b → a ≡ b
some_inj a b h = ground arith

-- The documents that the parts of a merged PDF are: as many as were merged, each with a page at
-- least, and their pages one after the other are those of the merged PDF.
abbrev pub IsSplitOf : ℕ → Pdf → List (List ℕ) → Type 0
IsSplitOf count pdf parts =
    (length parts ≡ count) × All (λ part. 1 ≤ length part) parts × (joined parts ≡ pdf.pages)

ranges-IsSplitOf :
    (count : ℕ) (pdf : Pdf) (starts : List ℕ)
    → is_split count starts ≡ true
    → All (λ p. p < length pdf.pages) starts
    → IsSplitOf count pdf (page_ranges pdf.pages starts)
ranges-IsSplitOf count pdf [] h b = absurd (ground arith)
ranges-IsSplitOf count pdf (first ∷ rest) h b =
    let zero_first : first ≡ 0 = ground arith in
    let ascends : has_step_back first rest ≡ false = ground arith in
    let counted : length (first ∷ rest) ≡ count = ground arith in
    (
      length-page_ranges pdf.pages (first ∷ rest) ∙ counted,
      ranges-nonempty pdf.pages first rest ascends b,
      ranges-joined pdf.pages first rest ascends b ∙ ap (λ i. drop i pdf.pages) zero_first,
    )

is_split-length :
    (count : ℕ) (starts : List ℕ) → is_split count starts ≡ true → length starts ≡ count
is_split-length count [] h = absurd (ground arith)
is_split-length count (first ∷ rest) h = ground arith

pub length-split_pages :
    (count : ℕ) (pdf : Pdf) (parts : List (List ℕ))
    → split_pages count pdf ≡ some parts
    → length parts ≡ count
unfolding split_pages
length-split_pages count pdf parts h = elim (Bool-cases (is_split count (start_pages pdf))) [
  | inl splits ↦
      ap length (sym (some_inj _ _ (rw splits at h)))
      ∙ length-page_ranges pdf.pages (start_pages pdf)
      ∙ is_split-length count (start_pages pdf) splits
  | inr fails ↦ absurd (ground (arith, rw fails at h))
]

-- Where the named destinations lead to pages of the document, a merged PDF that is split is split into as many parts as documents were merged, none of them empty, and
-- the parts one after the other are the pages of the merged PDF.
pub split_pages-IsSplitOf :
    (count : ℕ) (pdf : Pdf) (parts : List (List ℕ))
    → All (LeadsInto (length pdf.pages)) pdf.destinations
    → split_pages count pdf ≡ some parts
    → IsSplitOf count pdf parts
unfolding split_pages
split_pages-IsSplitOf count pdf parts inside h =
    elim (Bool-cases (is_split count (start_pages pdf))) [
      | inl splits ↦
          subst (IsSplitOf count pdf) (some_inj _ _ (rw splits at h))
            (ranges-IsSplitOf count pdf (start_pages pdf) splits (start_pages-below pdf inside))
      | inr fails ↦ absurd (ground (arith, rw fails at h))
    ]

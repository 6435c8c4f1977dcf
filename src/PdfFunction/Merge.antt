-- ===== src/PdfFunction/Merge.antt =====
-- apps/pdf-function/src/merge.ts: where a merged PDF is split. Reading and writing a PDF is pdf-lib's,
-- an argument here; so is the merged .docx, which is docxtemplater's and PizZip's.
pub mod Split
use slomp.Prelude.{
  ℕ, zero, suc, ◌-◌, Bool, true, false, ◌&&◌, ◌||◌, not, Option, none, some, List, [], ◌∷◌, ◌++◌,
  map, if◌then◌else◌, ◌==◌, nat_eq, list_eq, ltb, leb, length, any, drop, take, set, values, codes,
}
use slomp.Prelude.Texts.{Text, slice, starts_with}
use slomp.Prelude.Sorting.{sort_with}
use slomp.PdfFunction.Storage.{Buffer}

-- A document of pdf-lib: its pages, and its named destinations in the order in which they are read,
-- each with the index of its page, where it leads to a page of the document.
pub record Pdf : Type 0 where
  pub pages : List ℕ
  pub destinations : List (Text × Option ℕ)

abbrev pub start_name : Text
start_name = codes "SlompDoc"

-- Texts by their UTF-16 units.
abbrev pub text_ltb : Text → Text → Bool
text_ltb [] [] = false
text_ltb [] (y ∷ ys) = true
text_ltb (x ∷ xs) [] = false
text_ltb (x ∷ xs) (y ∷ ys) = ltb x y || (x == y && text_ltb xs ys)

abbrev pub starts_map : List (Text × Option ℕ) → List (Text × ℕ) → List (Text × ℕ)
starts_map [] starts = starts
starts_map ((name, none) ∷ rest) starts = starts_map rest starts
starts_map ((name, some index) ∷ rest) starts =
    starts_map rest (if starts_with name start_name then set starts name index else starts)

abbrev pub by_name : Text × ℕ → Text × ℕ → Bool
by_name a b = not (text_ltb b.0 a.0)

unfoldable pub start_pages : Pdf → List ℕ
start_pages pdf = values (sort_with by_name (starts_map pdf.destinations []))

-- `page <= starts[i - 1]` for some page after the first.
abbrev pub has_step_back : ℕ → List ℕ → Bool
has_step_back previous [] = false
has_step_back previous (page ∷ pages) = leb page previous || has_step_back page pages

abbrev pub is_split : ℕ → List ℕ → Bool
is_split count [] = false
is_split count (first ∷ rest) =
    length (first ∷ rest) == count && first == 0 && not (has_step_back first rest)

-- The pages of each document: from its start up to the next one's, or to the end.
abbrev pub page_ranges : List ℕ → List ℕ → List (List ℕ)
page_ranges pages [] = []
page_ranges pages (first ∷ []) = slice first (length pages) pages ∷ []
page_ranges pages (first ∷ next ∷ rest) = slice first next pages ∷ page_ranges pages (next ∷ rest)

abbrev pub all_saved : List (Option Buffer) → Option (List Buffer)
all_saved [] = some []
all_saved (none ∷ rest) = none
all_saved (some b ∷ rest) = elim (all_saved rest) [ none ↦ none | some bs ↦ some (b ∷ bs) ]

unfoldable pub split_pages : ℕ → Pdf → Option (List (List ℕ))
unfolding start_pages
split_pages count pdf =
    let starts = start_pages pdf in
    if is_split count starts then some (page_ranges pdf.pages starts) else none

-- `load` and `save` answer `none` for what they throw, which is caught.
unfoldable pub split_pdf :
    (Buffer → Option Pdf) → (List ℕ → Option Buffer) → Buffer → ℕ → Option (List Buffer)
unfolding split_pages
split_pdf load save merged count = elim (load merged) [
  | none ↦ none
  | some pdf ↦ elim (split_pages count pdf) [
    | none ↦ none
    | some parts ↦ all_saved (map save parts)
  ]
]

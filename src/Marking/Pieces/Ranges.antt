-- ===== src/Marking/Pieces/Ranges.antt =====
-- A range that can take a marker keeps the marks apart.
use slomp.Prelude.{
  ◌≡◌, false, none, List, [], ◌∷◌, ◌++◌, any, All, Pairwise, Pairwise-append_one, arith, Bool-cases,
  inl, inr,
}
use slomp.Templates.Document.{Selection}
use slomp.Marking.Pieces.{overlaps, range_of, range_problem}

abbrev pub MarksApart : Selection → Selection → Type 0
MarksApart m n = overlaps (range_of m) (range_of n) ≡ false

range_problem-none :
    (range : Selection) (marks : List Selection)
    → any (λ mark. overlaps (range_of mark) (range_of range)) marks ≡ false
    → All (λ m. MarksApart m range) marks
range_problem-none range [] h = tt
range_problem-none range (m ∷ marks) h =
    (ground arith, range_problem-none range marks (ground arith))

-- A mark on a range that rangeProblem lets through overlaps none of the marks that were there, so the
-- marks of a template never overlap one another.
pub range_problem-MarksApart :
    (mark : Selection) (marks : List Selection)
    → Pairwise MarksApart marks
    → range_problem (range_of mark) marks ≡ none
    → Pairwise MarksApart (marks ++ mark ∷ [])
unfolding range_problem
range_problem-MarksApart mark marks apart fine = Pairwise-append_one MarksApart marks mark apart (
    range_problem-none mark marks
      (elim (Bool-cases (any (λ m. overlaps (range_of m) (range_of mark)) marks)) [
        | inl hit ↦ absurd (ground (arith, rw hit at fine))
        | inr clear ↦ clear
      ]))

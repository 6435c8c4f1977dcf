-- ===== src/Marking/Pieces/Covered.antt =====
-- The pieces of a paragraph hold all of its text, in order.
use slomp.Prelude.{
  ℕ, ◌+◌, ◌-◌, ◌≤◌, ◌<◌, ◌≡◌, refl, sym, ap, ◌∙◌, true, false, List, [], ◌∷◌, ◌++◌, map, ◌==◌,
  nat_eq, list_eq, pair_eq, leb, length, filter, All, All-both, All_of_all, All-filter, Pairwise,
  Pairwise-filter, arith, Bool-cases, inl, inr, max, All-filter_of_test, beq_sym, pair_beq_iff,
}
use mathlib.Core.List.{append_assoc, append-nil}
use slomp.Prelude.Sorting.{IsSorted, sort_by-IsSorted, All-sort_by, Pairwise-sort_by}
use slomp.Prelude.Texts.{
  Text, slice, joined, slice-append, slice-join, slice_past, slice_empty, take-min, take_all,
}
use slomp.Templates.Document.{Fragment, DocxBlock}
use slomp.Marking.Pieces.{
  Segment, SourcedMark, BlockPiece, text_piece, mark_piece, overlaps, range_of, segments_from,
  segments_between, push_text, pieces_from, piece_of, own_marks, block_pieces,
}

abbrev pub fragments_text : List Fragment → Text
fragments_text fragments = joined (map (λ f. f.text) fragments)

abbrev pub segments_text : List Segment → Text
segments_text segments = joined (map (λ s. s.text) segments)

abbrev pub piece_text : BlockPiece → Text
piece_text (text_piece segments) = segments_text segments
piece_text (mark_piece source mark text segments) = text

abbrev pub pieces_text : List BlockPiece → Text
pieces_text pieces = joined (map piece_text pieces)

segments_from-text :
    (from : ℕ) (fs : List Fragment) (start end : ℕ)
    → segments_text (segments_from from fs start end)
      ≡ slice (start - from) (end - from) (fragments_text fs)
unfolding segments_from
segments_from-text from [] start end = sym (slice_past (start - from) (end - from) [] (omega arith))
segments_from-text from (f ∷ fs) start end =
    let n = length f.text in
    let same_start : start - (from + n) ≡ (start - from) - n = omega arith in
    let same_end : end - (from + n) ≡ (end - from) - n = omega arith in
    let rest : segments_text (segments_from (from + n) fs start end)
        ≡ slice ((start - from) - n) ((end - from) - n) (fragments_text fs) =
      rw (← same_start, ← same_end) (segments_from-text (from + n) fs start end) in
    let parts = slice-append (start - from) (end - from) f.text (fragments_text fs) in
    elim (Bool-cases (leb (from + n) start)) [
      | inl before ↦
          rw (before, parts, slice_past (start - from) (end - from) f.text (ground arith)) rest
      | inr reached ↦ elim (Bool-cases (leb end from)) [
        | inl after ↦
            rw
              (reached, after, parts, slice_empty (start - from) (end - from) f.text (ground arith))
              rest
        | inr inside ↦ rw (reached, inside, parts, rest, take-min (end - from) f.text) refl
      ]
    ]

-- The segments between two offsets hold the text between them.
pub segments_between-text :
    (fs : List Fragment) (start end : ℕ)
    → segments_text (segments_between fs start end) ≡ slice start end (fragments_text fs)
unfolding segments_between
segments_between-text fs start end =
    let whole : (n : ℕ) → n - 0 ≡ n = λ n. omega arith in
    rw (whole start, whole end) at (segments_from-text 0 fs start end)

-- Marks in reading order, each after the one before it and within the text.
abbrev IsInOrder : ℕ → ℕ → List SourcedMark → Type 0
IsInOrder cursor size [] = cursor ≤ size
IsInOrder cursor size (m ∷ ms) =
    (cursor ≤ m.mark.start) × (m.mark.start ≤ m.mark.end) × IsInOrder m.mark.end size ms

push_text-text :
    (block : DocxBlock) (cursor until : ℕ)
    → fragments_text block.fragments ≡ block.text
    → pieces_text (push_text block cursor until) ≡ slice cursor until block.text
unfolding push_text
push_text-text block cursor until same = elim (Bool-cases (leb until cursor)) [
  | inl done ↦ rw done (sym (slice_empty cursor until block.text (ground arith)))
  | inr more ↦ rw more (
      append-nil (segments_text (segments_between block.fragments cursor until))
      ∙ segments_between-text block.fragments cursor until
      ∙ ap (slice cursor until) same)
]

pieces_text-append :
    (ps qs : List BlockPiece) → pieces_text (ps ++ qs) ≡ pieces_text ps ++ pieces_text qs
pieces_text-append [] qs = refl
pieces_text-append (p ∷ ps) qs =
    ap (λ t. piece_text p ++ t) (pieces_text-append ps qs)
    ∙ sym (append_assoc (piece_text p) (pieces_text ps) (pieces_text qs))

IsInOrder-le :
    (cursor size : ℕ) (own : List SourcedMark) → IsInOrder cursor size own → cursor ≤ size
IsInOrder-le cursor size [] h = h
IsInOrder-le cursor size (m ∷ own) (a, b, h) = omega (arith, IsInOrder-le m.mark.end size own h)

pieces_from-text :
    (block : DocxBlock) (cursor : ℕ) (own : List SourcedMark)
    → fragments_text block.fragments ≡ block.text
    → IsInOrder cursor (length block.text) own
    → pieces_text (pieces_from block cursor own) ≡ slice cursor (length block.text) block.text
unfolding pieces_from
pieces_from-text block cursor [] same h = push_text-text block cursor (length block.text) same
pieces_from-text block cursor (m ∷ own) same (a, b, h) =
    let start = m.mark.start in
    let end = m.mark.end in
    let size = length block.text in
    let le = IsInOrder-le end size own h in
    let next : max cursor end ≡ end = omega arith in
    let later : pieces_text (pieces_from block (max cursor end) own) ≡ slice end size block.text =
      rw next (pieces_from-text block end own same h) in
    pieces_text-append (push_text block cursor start)
      (piece_of block m ∷ pieces_from block (max cursor end) own)
    ∙ rw
        (
          push_text-text block cursor start same,
          later,
          slice-join start end size block.text b le,
          slice-join cursor start size block.text a (omega arith),
        )
        refl

abbrev pub AreApart : SourcedMark → SourcedMark → Type 0
AreApart m n = overlaps (range_of m.mark) (range_of n.mark) ≡ false

-- Some text of the block is marked, and no more than there is.
abbrev pub IsWithin : DocxBlock → SourcedMark → Type 0
IsWithin block m =
    (m.mark.block_id == block.block_id) ≡ true
    → (m.mark.start < m.mark.end) × (m.mark.end ≤ length block.text)

AreApart-swap : (m n : SourcedMark) → AreApart m n → AreApart n m
AreApart-swap m n h = ground (arith, beq_sym m.mark.block_id n.mark.block_id)

abbrev IsOwn : DocxBlock → SourcedMark → Type 0
IsOwn block m =
    (m.mark.block_id ≡ block.block_id)
    × (m.mark.start < m.mark.end)
    × (m.mark.end ≤ length block.text)

after :
    (block : DocxBlock) (m n : SourcedMark)
    → IsOwn block m
    → m.mark.start ≤ n.mark.start
    → AreApart m n
    → IsOwn block n
    → m.mark.end ≤ n.mark.start
after block m n own le apart own' =
    let same : (m.mark.block_id == n.mark.block_id) ≡ true =
      (pair_beq_iff m.mark.block_id n.mark.block_id).1 (own.0 ∙ sym own'.0) in
    ground arith

in_order :
    (block : DocxBlock) (cursor : ℕ) (own : List SourcedMark)
    → cursor ≤ length block.text
    → All (λ m. cursor ≤ m.mark.start) own
    → IsSorted (λ (m : SourcedMark). m.mark.start) own
    → Pairwise AreApart own
    → All (IsOwn block) own
    → IsInOrder cursor (length block.text) own
in_order block cursor [] l c s p w = l
in_order block cursor (m ∷ own) l (c, cs) (s, ss) (p, ps) (w, ws) = (
  c,
  omega arith,
  in_order block m.mark.end own (omega arith)
      (All-both (λ n. (m.mark.start ≤ n.mark.start) × AreApart m n) (IsOwn block)
        (λ n. m.mark.end ≤ n.mark.start) own (λ n h o. after block m n w h.0 h.1 o)
        (All-both (λ n. m.mark.start ≤ n.mark.start) (AreApart m)
          (λ n. (m.mark.start ≤ n.mark.start) × AreApart m n) own (λ n h k. (h, k)) s p)
        ws)
      ss ps ws,
)

-- Marks of a block that are not empty, end within its text and do not overlap leave nothing out: the
-- texts of the pieces, joined, are the block's text, where its fragments hold that text.
pub block_pieces-text :
    (block : DocxBlock) (marks : List SourcedMark)
    → fragments_text block.fragments ≡ block.text
    → All (IsWithin block) marks
    → Pairwise AreApart marks
    → pieces_text (block_pieces block marks) ≡ block.text
unfolding block_pieces
block_pieces-text block marks same within apart =
    let key = λ (m : SourcedMark). m.mark.start in
    let test = λ (m : SourcedMark). m.mark.block_id == block.block_id in
    let mine = filter test marks in
    let owned : All (IsOwn block) mine =
      All-both (IsWithin block) (λ m. test m ≡ true) (IsOwn block) mine
        (λ m h k. ((pair_beq_iff m.mark.block_id block.block_id).0 k, (h k).0, (h k).1))
        (All-filter (IsWithin block) test marks within)
        (All-filter_of_test (λ m. test m ≡ true) test marks (λ m k. k)) in
    let ordered =
      in_order block 0 (own_marks block marks) (omega arith)
        (All_of_all (λ (m : SourcedMark). 0 ≤ m.mark.start) (own_marks block marks)
          (λ m. omega arith))
        (sort_by-IsSorted key mine)
        (Pairwise-sort_by key AreApart mine AreApart-swap
          (Pairwise-filter AreApart test marks apart))
        (All-sort_by key (IsOwn block) mine owned) in
    pieces_from-text block 0 (own_marks block marks) same ordered
    ∙ take_all (length block.text) block.text (omega arith)

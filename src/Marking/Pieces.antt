-- ===== src/Marking/Pieces.antt =====
-- apps/frontend/src/domain/templateMarking.ts: ranges of a paragraph's text, and the paragraph as
-- plain text with its marks in between.
pub mod Covered
pub mod Ranges
use slomp.Prelude.{
  ℕ, ◌+◌, ◌-◌, Bool, true, false, ◌&&◌, not, Option, none, some, List, [], ◌∷◌, ◌++◌, map, min, max,
  if◌then◌else◌, ◌==◌, nat_eq, list_eq, pair_eq, Eq, ltb, leb, length, filter, any, take, drop,
  zero, suc,
}
use slomp.Prelude.Sorting.{sort_by}
use slomp.Prelude.Texts.{Text, slice, is_space, reversed}
use slomp.Templates.Document.{BlockId, Selection, Fragment, DocxBlock}

pub data MarkingProblem : Type 0 where
  crosses_blocks empty overlap outside_table other_row in_removed_row : MarkingProblem

pub record TextRange : Type 0 where
  pub block_id : BlockId
  pub start : ℕ
  pub end : ℕ

abbrev pub range_of : Selection → TextRange
range_of m = record { block_id = m.block_id; start = m.start; end = m.end }

-- `while (from < to && /\s/.test(text[from])) from += 1;` over the text from `from` on; the first
-- argument is `to - from`.
pub skip_forward : ℕ → ℕ → Text → ℕ
unfolding is_space
skip_forward zero from rest = from
skip_forward (suc n) from [] = from
skip_forward (suc n) from (c ∷ rest) =
    let next = skip_forward n (from + 1) rest in if is_space c then next else from

-- `while (to > from && /\s/.test(text[to - 1])) to -= 1;`, with `text[to - 1]` read from the text
-- up to `to`, backwards.
pub skip_back : ℕ → ℕ → Text → ℕ
unfolding is_space
skip_back zero to before = to
skip_back (suc n) to [] = to
skip_back (suc n) to (c ∷ before) =
    let next = skip_back n (to - 1) before in if is_space c then next else to

-- Positions are natural numbers, so `Math.max(0, …)` changes nothing.
unfoldable pub trim_range : Text → ℕ → ℕ → Option (ℕ × ℕ)
unfolding skip_forward skip_back
trim_range text start end =
    let to = min (length text) (max start end) in
    let from = skip_forward (to - min start end) (min start end) (drop (min start end) text) in
    let to' = skip_back (to - from) to (reversed (take to text) []) in
    if ltb from to' then some (from, to') else none

abbrev pub overlaps : TextRange → TextRange → Bool
overlaps a b = a.block_id == b.block_id && ltb a.start b.end && ltb b.start a.end

unfoldable pub range_problem : TextRange → List Selection → Option MarkingProblem
range_problem range marks =
    if any (λ mark. overlaps (range_of mark) range) marks then some overlap else none

pub record Segment : Type 0 where
  pub text : Text
  pub bold : Bool
  pub italic : Bool
  pub start : ℕ

-- The loop of segmentsBetween, from the offset `from` on.
pub segments_from : ℕ → List Fragment → ℕ → ℕ → List Segment
segments_from from [] start end = []
segments_from from (fragment ∷ fragments) start end =
    let offset = from + length fragment.text in
    let rest = segments_from offset fragments start end in
    let cut = start - from in
    let keep = min (end - from) (length fragment.text) in
    if leb offset start
    then rest
    else if leb end from
    then rest
    else record {
      text = slice cut keep fragment.text;
      bold = fragment.bold;
      italic = fragment.italic;
      start = from + cut;
    }
      ∷ rest

pub segments_between : List Fragment → ℕ → ℕ → List Segment
unfolding segments_from
segments_between fragments start end = segments_from 0 fragments start end

pub data MarkSource : Type 0 where
  file lawyer pending : MarkSource

pub record SourcedMark : Type 0 where
  pub mark : Selection
  pub source : MarkSource

pub data BlockPiece : Type 0 where
  text_piece : (segments : List Segment) → BlockPiece
  mark_piece :
      (source : MarkSource) (mark : Selection) (text : Text) (segments : List Segment) → BlockPiece

-- pushText
pub push_text : DocxBlock → ℕ → ℕ → List BlockPiece
push_text block cursor until =
    if leb until cursor then [] else text_piece (segments_between block.fragments cursor until) ∷ []

abbrev pub piece_of : DocxBlock → SourcedMark → BlockPiece
piece_of block m =
    mark_piece m.source m.mark (slice m.mark.start m.mark.end block.text)
      (segments_between block.fragments m.mark.start m.mark.end)

-- The loop over the block's own marks.
pub pieces_from : DocxBlock → ℕ → List SourcedMark → List BlockPiece
unfolding push_text
pieces_from block cursor [] = push_text block cursor (length block.text)
pieces_from block cursor (m ∷ own) =
    push_text block cursor m.mark.start
    ++ (piece_of block m ∷ pieces_from block (max cursor m.mark.end) own)

abbrev pub own_marks : DocxBlock → List SourcedMark → List SourcedMark
own_marks block marks =
    sort_by (λ m. m.mark.start) (filter (λ m. m.mark.block_id == block.block_id) marks)

unfoldable pub block_pieces : DocxBlock → List SourcedMark → List BlockPiece
unfolding pieces_from
block_pieces block marks = pieces_from block 0 (own_marks block marks)

abbrev pub same_range : TextRange → TextRange → Bool
same_range a b = a.block_id == b.block_id && a.start == b.start && a.end == b.end

-- ===== src/Marking/Rows/Sections.antt =====
-- The sections of a document hold its blocks, in order, gathered by part and by table.
use slomp.Prelude.{
  ◌≡◌, refl, sym, ap, ◌∙◌, true, Option, none, some, List, [], ◌∷◌, ◌++◌, map, ◌==◌, nat_eq,
  list_eq, pair_eq, arith, Bool-cases, inl, inr, All, All-append, pair_beq_iff,
}
use mathlib.Core.List.{append_assoc, append-nil}
use slomp.Prelude.Texts.{joined}
use slomp.Templates.Document.{DocxBlock, part_eq, part_beq_iff}
use slomp.Marking.Rows.{
  TableKey, DocumentItem, paragraph, table, DocumentSection, table_key, new_item, is_key, add_item,
  add_block, sections_from, sections_of,
}

abbrev pub item_blocks : DocumentItem → List DocxBlock
item_blocks (paragraph block) = block ∷ []
item_blocks (table key blocks) = blocks

abbrev pub items_blocks : List DocumentItem → List DocxBlock
items_blocks items = joined (map item_blocks items)

abbrev pub sections_blocks : List DocumentSection → List DocxBlock
sections_blocks sections = joined (map (λ s. items_blocks s.items) sections)

abbrev InTable : TableKey → DocxBlock → Type 0
InTable key block = table_key block ≡ some key

-- A paragraph stands outside every table, and a table's blocks are all in it.
abbrev pub IsItem : DocumentItem → Type 0
IsItem (paragraph block) = table_key block ≡ none
IsItem (table key blocks) = All (InTable key) blocks

abbrev pub IsSection : DocumentSection → Type 0
IsSection s = All (λ b. b.part ≡ s.part) (items_blocks s.items) × All IsItem s.items

new_item-blocks :
    (block : DocxBlock) (key : Option TableKey) → item_blocks (new_item block key) ≡ block ∷ []
new_item-blocks block none = refl
new_item-blocks block (some key) = refl

new_item-IsItem : (block : DocxBlock) → IsItem (new_item block (table_key block))
new_item-IsItem block = go (table_key block) refl
  where
    go : (key : Option TableKey) → table_key block ≡ key → IsItem (new_item block key)
    go none e = e
    go (some key) e = (e, tt)

add_item-blocks :
    (block : DocxBlock) (items : List DocumentItem)
    → items_blocks (add_item block items) ≡ items_blocks items ++ block ∷ []
unfolding add_item
add_item-blocks block [] = rw (new_item-blocks block (table_key block)) refl
add_item-blocks block (table key blocks ∷ []) = elim (Bool-cases (is_key key (table_key block))) [
  | inl same ↦
      rw same
        (append-nil (blocks ++ block ∷ []) ∙ ap (λ l. l ++ block ∷ []) (sym (append-nil blocks)))
  | inr other ↦ rw (other, new_item-blocks block (table_key block), append-nil blocks) refl
]
add_item-blocks block (paragraph b ∷ []) = rw (new_item-blocks block (table_key block)) refl
add_item-blocks block (i ∷ j ∷ items) =
    ap (λ l. item_blocks i ++ l) (add_item-blocks block (j ∷ items))
    ∙ sym (append_assoc (item_blocks i) (items_blocks (j ∷ items)) (block ∷ []))

key_of : (key : TableKey) (other : Option TableKey) → is_key key other ≡ true → other ≡ some key
key_of key none h = absurd (ground arith)
key_of key (some other) h = ap some (sym ((pair_beq_iff key other).0 h))

add_item-IsItem :
    (block : DocxBlock) (items : List DocumentItem)
    → All IsItem items
    → All IsItem (add_item block items)
unfolding add_item
add_item-IsItem block [] h = (new_item-IsItem block, tt)
add_item-IsItem block (table key blocks ∷ []) (h, hs) =
    elim (Bool-cases (is_key key (table_key block))) [
      | inl same ↦ rw same (
        All-append (InTable key) blocks (block ∷ []) h (key_of key (table_key block) same, tt),
        tt,
      )
      | inr other ↦ rw other (h, (new_item-IsItem block, tt))
    ]
add_item-IsItem block (paragraph b ∷ []) (h, hs) = (h, (new_item-IsItem block, tt))
add_item-IsItem block (i ∷ j ∷ items) (h, hs) = (h, add_item-IsItem block (j ∷ items) hs)

add_block-blocks :
    (block : DocxBlock) (sections : List DocumentSection)
    → sections_blocks (add_block block sections) ≡ sections_blocks sections ++ block ∷ []
unfolding add_block
add_block-blocks block [] = rw (add_item-blocks block []) refl
add_block-blocks block (s ∷ []) = elim (Bool-cases (s.part == block.part)) [
  | inl same ↦
      rw (same, add_item-blocks block s.items, append-nil (items_blocks s.items)) (append-nil _)
  | inr other ↦ rw (other, add_item-blocks block [], append-nil (items_blocks s.items)) refl
]
add_block-blocks block (s ∷ t ∷ sections) =
    ap (λ l. items_blocks s.items ++ l) (add_block-blocks block (t ∷ sections))
    ∙ sym (append_assoc (items_blocks s.items) (sections_blocks (t ∷ sections)) (block ∷ []))

sections_from-blocks :
    (sections : List DocumentSection) (blocks : List DocxBlock)
    → sections_blocks (sections_from sections blocks) ≡ sections_blocks sections ++ blocks
unfolding sections_from
sections_from-blocks sections [] = sym (append-nil (sections_blocks sections))
sections_from-blocks sections (block ∷ blocks) =
    sections_from-blocks (add_block block sections) blocks
    ∙ ap (λ l. l ++ blocks) (add_block-blocks block sections)
    ∙ append_assoc (sections_blocks sections) (block ∷ []) blocks

add_block-IsSection :
    (block : DocxBlock) (sections : List DocumentSection)
    → All IsSection sections
    → All IsSection (add_block block sections)
unfolding add_block
add_block-IsSection block [] h =
    ((rw (add_item-blocks block []) (refl, tt), add_item-IsItem block [] tt), tt)
add_block-IsSection block (s ∷ []) ((p, q), hs) = elim (Bool-cases (s.part == block.part)) [
  | inl same ↦
      let part : block.part ≡ s.part = sym ((part_beq_iff s.part block.part).0 same) in
      rw same (
        (
          rw (add_item-blocks block s.items)
              (All-append (λ b. b.part ≡ s.part) (items_blocks s.items) (block ∷ []) p (part, tt)),
          add_item-IsItem block s.items q,
        ),
        tt,
      )
  | inr other ↦
      rw other
        ((p, q), ((rw (add_item-blocks block []) (refl, tt), add_item-IsItem block [] tt), tt))
]
add_block-IsSection block (s ∷ t ∷ sections) (h, hs) =
    (h, add_block-IsSection block (t ∷ sections) hs)

sections_from-IsSection :
    (sections : List DocumentSection) (blocks : List DocxBlock)
    → All IsSection sections
    → All IsSection (sections_from sections blocks)
unfolding sections_from
sections_from-IsSection sections [] h = h
sections_from-IsSection sections (block ∷ blocks) h =
    sections_from-IsSection (add_block block sections) blocks (add_block-IsSection block sections h)

-- The sections of a document hold exactly its blocks, in their order; the blocks of a section are of
-- its part, those of a table item have the item's table, and a paragraph item is in no table.
pub sections_of_blocks :
    (blocks : List DocxBlock)
    → (sections_blocks (sections_of blocks) ≡ blocks) × All IsSection (sections_of blocks)
unfolding sections_of
sections_of_blocks blocks = (sections_from-blocks [] blocks, sections_from-IsSection [] blocks tt)

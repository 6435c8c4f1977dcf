-- ===== src/Templates/Markers.antt =====
-- apps/backend/src/templates/guided-marking.ts: the {markers} that a document already has, the marker
-- of a field and the formatting of a paragraph. A document was checked by checkedFields before it is
-- read, so none of its tags is named like a property of Object.prototype, and `name in catalog.loops`
-- is a lookup among the loops.
use slomp.Prelude.{
  ℕ, ◌+◌, Bool, true, false, ◌&&◌, ◌||◌, not, Option, none, some, List, [], ◌∷◌, ◌++◌, map,
  if◌then◌else◌, ◌==◌, nat_eq, list_eq, length, find, includes, get, is_some, drop,
}
use slomp.Prelude.Texts.{Text, trim, joined, index_of}
use slomp.Templates.Document.{Selection, Fragment, FieldKind, is_inline_list}
use slomp.Templates.Catalog.{FieldCatalog, field_kind, dotted}
use slomp.Templates.Dom.{Paragraph}

-- A match of `/\{([^{}]*)\}/`: its place and what stands between the braces.
pub record Tag : Type 0 where
  pub start : ℕ
  pub end : ℕ
  pub inner : Text

-- The brace that is open, if any: its place and the characters since.
abbrev pub Pending : Type 0
Pending = Option (ℕ × Text)

abbrev pub next_pending : ℕ → ℕ → Pending → Pending
next_pending c at opened =
    if c == b'{'
    then some (at, [])
    else if c == b'}'
    then none
    else elim opened [ none ↦ none | some (start, inner) ↦ some (start, inner ++ c ∷ []) ]

abbrev pub closed : ℕ → ℕ → Pending → List Tag
closed c at none = []
closed c at (some (start, inner)) =
    if c == b'}' then record { start = start; end = at + 1; inner = inner } ∷ [] else []

-- `text.matchAll(…)`, from the character at `at` on.
pub tags_from : ℕ → Pending → Text → List Tag
tags_from at opened [] = []
tags_from at opened (c ∷ text) =
    closed c at opened ++ tags_from (at + 1) (next_pending c at opened) text

pub remove_first : Text → List Text → List Text
remove_first name [] = []
remove_first name (x ∷ xs) = if x == name then xs else x ∷ remove_first name xs

abbrev pub is_tag_of : ℕ → Text → Bool
is_tag_of mark [] = false
is_tag_of mark (c ∷ tag) = c == mark

abbrev pub is_inline : Option FieldKind → Bool
is_inline none = false
is_inline (some kind) = is_inline_list kind

abbrev pub fields_in : FieldCatalog → Text → List Text
fields_in catalog loop = elim (get catalog.loops loop) [ none ↦ [] | some fields ↦ fields ]

-- The field of a plain tag inside the open loops, the last one first.
pub plain_field : FieldCatalog → List Text → Text → Text
plain_field catalog opened tag = elim (find (λ name. is_some (get catalog.loops name)) opened) [
  | none ↦ tag
  | some loop ↦
      if length loop == 0 || not (includes (fields_in catalog loop) tag)
      then tag
      else if is_inline (field_kind catalog loop)
      then loop
      else dotted loop tag
]

-- The field of a tag and the loops that are open after it, the last one first.
pub field_of_tag : FieldCatalog → List Text → Text → Text × List Text
unfolding plain_field remove_first trim
field_of_tag catalog opened inner =
    let tag = trim inner in
    let name = trim (drop 1 tag) in
    if is_tag_of b'#' tag
    then (name, name ∷ opened)
    else if is_tag_of b'/' tag
    then (name, remove_first name opened)
    else (plain_field catalog opened tag, opened)

-- The tags of one paragraph. Those of a text box count for the loops, and are no markers.
pub markers_of : FieldCatalog → List Text → Paragraph → List Tag → List Selection × List Text
unfolding field_of_tag
markers_of catalog opened paragraph [] = ([], opened)
markers_of catalog opened paragraph (t ∷ tags) =
    let (field, opened') = field_of_tag catalog opened t.inner in
    let (markers, last) = markers_of catalog opened' paragraph tags in
    (
      if paragraph.in_text_box
          then markers
          else record { block_id = paragraph.block_id; start = t.start; end = t.end; field = field }
            ∷ markers,
      last,
    )

pub markers_from : FieldCatalog → List Text → List Paragraph → List Selection
unfolding markers_of tags_from
markers_from catalog opened [] = []
markers_from catalog opened (p ∷ paragraphs) =
    let (markers, opened') = markers_of catalog opened p (tags_from 0 none p.text) in
    markers ++ markers_from catalog opened' paragraphs

unfoldable pub existing_markers : FieldCatalog → List Paragraph → List Selection
unfolding markers_from
existing_markers catalog paragraphs = markers_from catalog [] paragraphs

abbrev pub braced : Text → Text
braced name = b'{' ∷ name ++ b'}' ∷ []

-- The empty text for the loop of a table itself.
unfoldable pub marker_for : FieldCatalog → Text → Text
marker_for catalog field = elim (index_of field b'.') [
  | some dot ↦ braced (drop (dot + 1) field)
  | none ↦
      if is_inline (field_kind catalog field)
      then braced (b'#' ∷ field)
        ++ (joined (map braced (fields_in catalog field)) ++ braced (b'/' ∷ field))
      else if is_some (get catalog.loops field)
      then []
      else braced field
]

-- One text node of a paragraph with the flags of its run.
pub record Run : Type 0 where
  pub text : Text
  pub bold : Bool
  pub italic : Bool

abbrev pub as_fragment : Run → Fragment
as_fragment r = record { text = r.text; bold = r.bold; italic = r.italic }

abbrev pub flag_eq : Bool → Bool → Bool
flag_eq true b = b
flag_eq false b = not b

-- The loop of fragmentsOf, whose last fragment is `last`.
pub fragments_from : Fragment → List Run → List Fragment
fragments_from last [] = last ∷ []
fragments_from last (r ∷ runs) =
    let longer = fragments_from (record last { text = last.text ++ r.text }) runs in
    let apart = fragments_from (as_fragment r) runs in
    let skipped = fragments_from last runs in
    if length r.text == 0
    then skipped
    else if flag_eq last.bold r.bold && flag_eq last.italic r.italic
    then longer
    else last ∷ apart

pub fragments_of : List Run → List Fragment
unfolding fragments_from
fragments_of [] = []
fragments_of (r ∷ runs) =
    let rest = fragments_of runs in
    if length r.text == 0 then rest else fragments_from (as_fragment r) runs

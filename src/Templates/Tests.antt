-- ===== src/Templates/Tests.antt =====
-- The marking of templates and their versions at concrete inputs: a paragraph whose text Word split in
-- three nodes, and two uploads of one municipality.
use slomp.Prelude.{
  ℕ, ◌≡◌, refl, Bool, true, false, none, List, [], ◌∷◌, ◌++◌, map, arith, codes, All, take, drop,
  if◌then◌else◌, ◌==◌, nat_eq, pair_eq, includes,
}
use slomp.Prelude.Texts.{Text}
use slomp.PdfJobs.Rules.{liquidacion, mandamiento}
use slomp.Templates.Document.{Selection, body}
use slomp.Templates.Catalog.{catalog_of}
use slomp.Templates.Dom.{NodeId, Store, text_of, replace_range, Paragraph}
use slomp.Templates.Dom.Replaced.{replace_range-text}
use slomp.Templates.Dom.Substituted.{substituted}
use slomp.Templates.Markers.{marker_for, existing_markers}
use slomp.Templates.Selections.{Indexed, write_marks, check_neighbours, later_first}
use slomp.Templates.Selections.Written.{replacements, write_marks_lem}
use slomp.Prelude.Sorting.{sort_with}
use slomp.Templates.Versions.{
  type_eq, Kind, World, TemplateFile, Template, publish, activate, new_template, rolled_back,
  stored, clean_up,
}
use slomp.Templates.Versions.Consistent.{
  IsConsistent, here, next, publishes, activates, Reach-IsConsistent,
}
use slomp.Templates.Versions.Cleanup.{clean_up_late}

-- "Debe $10" and " hoy" with an empty node between.
abbrev node_text : NodeId → Text
node_text t = if t == 0 then codes "Debe $10" else if t == 2 then codes " hoy" else []

abbrev nodes : List NodeId
nodes = 0 ∷ 1 ∷ 2 ∷ []

abbrev store : Store
store = record { texts = node_text; next = 3 }

replace_range-text_example :
    (text_of (replace_range nodes 5 9 (codes "{x}") store) nodes
      ≡ take 5 (text_of store nodes) ++ (codes "{x}" ++ drop 9 (text_of store nodes)))
    × ((u : NodeId)
        → All (λ t. (t == u) ≡ false) nodes
        → (replace_range nodes 5 9 (codes "{x}") store).texts u ≡ store.texts u)
replace_range-text_example =
    replace_range-text nodes 5 9 (codes "{x}") store ((refl, (refl, tt)), ((refl, tt), (tt, tt)))
      (omega arith) (omega arith)

across_nodes : text_of (replace_range nodes 5 9 (codes "{x}") store) nodes ≡ codes "Debe {x}hoy"
unfolding replace_range
across_nodes = refl

abbrev select : ℕ → ℕ → ℕ → Text → Indexed
select index start end field = record {
  selection = record { block_id = (codes "body", 0); start = start; end = end; field = field };
  index = index;
}

abbrev group : List Indexed
group = select 0 0 4 (codes "propertyName") ∷ select 1 5 8 (codes "totalAmount") ∷ []

write_marks_lem_example :
    text_of (write_marks (catalog_of liquidacion) nodes (sort_with later_first group) store) nodes
    ≡ substituted
        (text_of store nodes)
        (replacements (catalog_of liquidacion) (sort_with later_first group))
unfolding write_marks check_neighbours
write_marks_lem_example =
    write_marks_lem (catalog_of liquidacion) nodes group store
      ((refl, (refl, tt)), ((refl, tt), (tt, tt)))
      ((omega arith, omega arith), ((omega arith, omega arith), tt)) refl

both_marked :
    text_of (write_marks (catalog_of liquidacion) nodes (sort_with later_first group) store) nodes
    ≡ codes "{propertyName} {totalAmount} hoy"
unfolding write_marks marker_for replace_range catalog_of
both_marked = refl

list_marker :
    marker_for (catalog_of mandamiento) (codes "liquidations")
    ≡ codes "{#liquidations}{number}{separator}{/liquidations}"
unfolding marker_for catalog_of
list_marker = refl

abbrev tagged : Paragraph
tagged = record {
  block_id = (codes "body", 4);
  part = body;
  doc = 0;
  texts = [];
  text = codes "{#rows}{ year }{/rows}{owners}";
  in_text_box = false;
  row = none;
  table = none;
}

found_markers :
    map (λ (m : Selection). m.field) (existing_markers (catalog_of liquidacion) (tagged ∷ []))
    ≡ codes "rows" ∷ codes "rows.year" ∷ codes "rows" ∷ codes "owners" ∷ []
unfolding existing_markers catalog_of
found_markers = refl

abbrev paez : Kind
paez = (19517, liquidacion)

abbrev upload : ℕ → TemplateFile
upload sha256 = record { sha256 = sha256; name = codes "paez.docx"; fields = [] }

abbrev no_templates : World
no_templates = record { templates = []; next_id = 1; blobs = [] }

Reach-IsConsistent_example :
    IsConsistent
      (activate 19517 1
        (publish paez
          (upload 9)
          2
          true
          true
          (publish paez (upload 8) 2 true true no_templates).0).0).0
Reach-IsConsistent_example =
    Reach-IsConsistent (record { apart = tt; numbered = tt })
      (next
        (next (next here (publishes paez (upload 8) 2 true true no_templates)) (
          publishes paez (upload 9) 2 true true
            (publish paez (upload 8) 2 true true no_templates).0))
        (activates 19517 1
          (publish paez (upload 9) 2 true true
            (publish paez (upload 8) 2 true true no_templates).0).0))

first_active_again :
    map {B = ℕ × Bool}
      (λ (t : Template). (t.version, t.is_active))
      (activate 19517 1
        (publish paez
          (upload 9)
          2
          true
          true
          (publish paez (upload 8) 2 true true no_templates).0).0).0.templates
    ≡ (1, true) ∷ (2, false) ∷ []
unfolding publish activate
first_active_again = refl

clean_up_late_example :
    let (w1, failed) = publish paez (upload 8) 2 true false no_templates in
    let (w2, outcome) = publish paez (upload 9) 3 true true w1 in
    let created = new_template paez (upload 9) 3 w1 in
    (failed ≡ rolled_back created.blob_path)
    × (outcome ≡ stored created)
    × (includes (clean_up created.blob_path true w2).blobs created.blob_path ≡ false)
clean_up_late_example = clean_up_late paez (upload 8) (upload 9) 2 3 no_templates

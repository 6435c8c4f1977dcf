-- ===== src/Templates/Catalog.antt =====
-- apps/backend/src/templates: the catalogs of fields that a template may use
-- (validate-template-fields.ts), their listing (template-catalog.ts) and the fields of a template's
-- tags (collect of extract-template-fields.ts). The tags themselves come from docxtemplater.
use slomp.Prelude.{
  Bool, true, false, ◌&&◌, ◌||◌, not, Option, none, some, List, [], ◌∷◌, ◌++◌, map, if◌then◌else◌,
  nat_eq, list_eq, ltb, length, filter, includes, add, set_from, get, keys, codes, Result, ok, err,
}
use slomp.Prelude.Texts.{Text, joined}
use slomp.PdfJobs.Rules.{PdfDocumentType, liquidacion, mandamiento}
use slomp.Templates.Document.{FieldKind, scalar, table_row, inline_list, is_table_row}

pub record FieldMeta : Type 0 where
  pub label : Text
  pub description : Text
  pub kind : FieldKind
  pub required_in_table : Bool

pub record FieldCatalog : Type 0 where
  pub scalars : List Text
  pub loops : List (Text × List Text)
  pub required : List Text
  pub meta : List (Text × FieldMeta)

unfoldable pub liquidation_fields_meta : List (Text × FieldMeta)
liquidation_fields_meta =
    (
      codes "resolutionNumber",
      record {
        label = codes "Número de resolución";
        description = codes "Número con el que se identifica la resolución. Ej.: RES-0001-2026.";
        kind = scalar;
        required_in_table = false;
      },
    )
    ∷ (
      codes "cadastralCode",
      record {
        label = codes "Código catastral del predio";
        description =
            codes "Código que identifica el predio en el catastro. Ej.: 00-01-0001-0001-000.";
        kind = scalar;
        required_in_table = false;
      },
    )
    ∷ (
      codes "propertyName",
      record {
        label = codes "Nombre del predio";
        description = codes "Nombre o dirección del predio. Ej.: Lote El Ejemplo.";
        kind = scalar;
        required_in_table = false;
      },
    )
    ∷ (
      codes "owners",
      record {
        label = codes "Propietarios (nombres separados por coma)";
        description =
            codes
              "Nombres de los propietarios separados por coma. Ej.: María Pérez Gómez, Juan Rodríguez.";
        kind = scalar;
        required_in_table = false;
      },
    )
    ∷ (
      codes "startYear",
      record {
        label = codes "Año inicial del cobro";
        description = codes "Primer año que se cobra. Ej.: 2023.";
        kind = scalar;
        required_in_table = false;
      },
    )
    ∷ (
      codes "endYear",
      record {
        label = codes "Año final del cobro";
        description = codes "Último año que se cobra. Ej.: 2025.";
        kind = scalar;
        required_in_table = false;
      },
    )
    ∷ (
      codes "totalAmount",
      record {
        label = codes "Valor total a pagar";
        description =
            codes "Suma de capital e intereses que debe pagar el contribuyente. Ej.: $1.250.000.";
        kind = scalar;
        required_in_table = false;
      },
    )
    ∷ (
      codes "capitalAmount",
      record {
        label = codes "Valor total del capital";
        description = codes "Suma del capital de todas las vigencias. Ej.: $1.000.000.";
        kind = scalar;
        required_in_table = false;
      },
    )
    ∷ (
      codes "interestAmount",
      record {
        label = codes "Valor total de los intereses";
        description = codes "Suma de los intereses de todas las vigencias. Ej.: $250.000.";
        kind = scalar;
        required_in_table = false;
      },
    )
    ∷ (
      codes "rows",
      record {
        label = codes "Tabla de vigencias (una fila por año)";
        description =
            codes
              "Fila de la tabla que el sistema repite una vez por año cobrado. Ej.: una fila para 2023, otra para 2024.";
        kind = table_row;
        required_in_table = false;
      },
    )
    ∷ (
      codes "rows.year",
      record {
        label = codes "Vigencia (año)";
        description = codes "Año de la vigencia de esa fila. Ej.: 2024.";
        kind = table_row;
        required_in_table = true;
      },
    )
    ∷ (
      codes "rows.concept",
      record {
        label = codes "Concepto";
        description = codes "Concepto que se cobra en esa fila. Ej.: Impuesto predial.";
        kind = table_row;
        required_in_table = false;
      },
    )
    ∷ (
      codes "rows.interest",
      record {
        label = codes "Intereses de la vigencia";
        description = codes "Intereses de esa vigencia. Ej.: $80.000.";
        kind = table_row;
        required_in_table = false;
      },
    )
    ∷ (
      codes "rows.capital",
      record {
        label = codes "Capital de la vigencia";
        description = codes "Capital de esa vigencia. Ej.: $350.000.";
        kind = table_row;
        required_in_table = false;
      },
    )
    ∷ []

unfoldable pub liquidation_fields : FieldCatalog
unfolding liquidation_fields_meta
liquidation_fields = record {
  scalars =
      codes "resolutionNumber"
      ∷ codes "cadastralCode"
      ∷ codes "propertyName"
      ∷ codes "owners"
      ∷ codes "startYear"
      ∷ codes "endYear"
      ∷ codes "totalAmount"
      ∷ codes "capitalAmount"
      ∷ codes "interestAmount"
      ∷ [];
  loops =
      (codes "rows", codes "year" ∷ codes "concept" ∷ codes "interest" ∷ codes "capital" ∷ []) ∷ [];
  required =
      codes "resolutionNumber" ∷ codes "cadastralCode" ∷ codes "totalAmount" ∷ codes "rows" ∷ [];
  meta = liquidation_fields_meta;
}

unfoldable pub payment_order_fields_meta : List (Text × FieldMeta)
payment_order_fields_meta =
    (
      codes "paymentOrderNumber",
      record {
        label = codes "Número del mandamiento";
        description = codes "Número con el que se identifica el mandamiento. Ej.: MND-0001-2026.";
        kind = scalar;
        required_in_table = false;
      },
    )
    ∷ (
      codes "issueDate",
      record {
        label = codes "Fecha de expedición (dd/mm/aaaa)";
        description = codes "Fecha en que se expide el mandamiento. Ej.: 15/01/2026.";
        kind = scalar;
        required_in_table = false;
      },
    )
    ∷ (
      codes "cadastralCode",
      record {
        label = codes "Código catastral del predio";
        description =
            codes "Código que identifica el predio en el catastro. Ej.: 00-01-0001-0001-000.";
        kind = scalar;
        required_in_table = false;
      },
    )
    ∷ (
      codes "propertyName",
      record {
        label = codes "Nombre del predio";
        description = codes "Nombre o dirección del predio. Ej.: Lote El Ejemplo.";
        kind = scalar;
        required_in_table = false;
      },
    )
    ∷ (
      codes "owners",
      record {
        label = codes "Propietarios (nombres separados por coma)";
        description =
            codes
              "Nombres de los propietarios separados por coma. Ej.: María Pérez Gómez, Juan Rodríguez.";
        kind = scalar;
        required_in_table = false;
      },
    )
    ∷ (
      codes "startYear",
      record {
        label = codes "Año inicial del cobro";
        description = codes "Primer año que se cobra. Ej.: 2023.";
        kind = scalar;
        required_in_table = false;
      },
    )
    ∷ (
      codes "endYear",
      record {
        label = codes "Año final del cobro";
        description = codes "Último año que se cobra. Ej.: 2025.";
        kind = scalar;
        required_in_table = false;
      },
    )
    ∷ (
      codes "capitalAmount",
      record {
        label = codes "Valor del capital";
        description = codes "Valor del capital que se cobra en el mandamiento. Ej.: $1.000.000.";
        kind = scalar;
        required_in_table = false;
      },
    )
    ∷ (
      codes "liquidations",
      record {
        label = codes "Liquidaciones que respalda el mandamiento (lista dentro del texto)";
        description =
            codes
              "Números de las liquidaciones que respalda el mandamiento, escritos dentro de una frase. Ej.: LIQ-0001-2026, LIQ-0002-2026.";
        kind = inline_list;
        required_in_table = false;
      },
    )
    ∷ []

unfoldable pub payment_order_fields : FieldCatalog
unfolding payment_order_fields_meta
payment_order_fields = record {
  scalars =
      codes "paymentOrderNumber"
      ∷ codes "issueDate"
      ∷ codes "cadastralCode"
      ∷ codes "propertyName"
      ∷ codes "owners"
      ∷ codes "startYear"
      ∷ codes "endYear"
      ∷ codes "capitalAmount"
      ∷ [];
  loops = (codes "liquidations", codes "number" ∷ codes "separator" ∷ []) ∷ [];
  required =
      codes "paymentOrderNumber"
      ∷ codes "cadastralCode"
      ∷ codes "capitalAmount"
      ∷ codes "liquidations"
      ∷ [];
  meta = payment_order_fields_meta;
}

-- CATALOGS has an entry for every type of document.
unfoldable pub catalog_of : PdfDocumentType → FieldCatalog
unfolding liquidation_fields payment_order_fields
catalog_of liquidacion = liquidation_fields
catalog_of mandamiento = payment_order_fields

abbrev pub dotted : Text → Text → Text
dotted loop field = loop ++ b'.' ∷ field

-- `catalog.meta[key]?.kind`
abbrev pub field_kind : FieldCatalog → Text → Option FieldKind
field_kind catalog key = elim (get catalog.meta key) [ none ↦ none | some meta ↦ some meta.kind ]

abbrev pub is_table_kind : Option FieldKind → Bool
is_table_kind none = false
is_table_kind (some kind) = is_table_row kind

abbrev pub loop_fields : Text → List Text → List Text
loop_fields loop fields = loop ∷ map (dotted loop) fields

pub allowed_fields : FieldCatalog → List Text
allowed_fields catalog =
    set_from [] (
      catalog.scalars ++ joined (map (λ (l : Text × List Text). loop_fields l.0 l.1) catalog.loops))

pub record FieldValidation : Type 0 where
  pub missing : List Text
  pub unknown : List Text

pub validate_template_fields : FieldCatalog → List Text → FieldValidation
unfolding allowed_fields
validate_template_fields catalog detected =
    let allowed = allowed_fields catalog in
    let found = set_from [] detected in
    record {
      missing = filter (λ field. not (includes found field)) catalog.required;
      unknown = filter (λ field. not (includes allowed field)) detected;
    }

-- checkedFields of templates.service.ts, on the fields that were extracted: them, or the missing and
-- the unknown ones that the error tells.
pub checked_fields : FieldCatalog → List Text → Bool → Result FieldValidation (List Text)
unfolding validate_template_fields
checked_fields catalog fields require_all =
    let checked = validate_template_fields catalog fields in
    if ltb 0 (length checked.unknown) || (require_all && ltb 0 (length checked.missing))
    then err (record checked { missing = if require_all then checked.missing else [] })
    else ok fields

pub record CatalogEntry : Type 0 where
  pub key : Text
  pub label : Text
  pub description : Text
  pub required : Bool
  pub kind : FieldKind

abbrev pub catalog_keys : FieldCatalog → List Text
catalog_keys catalog =
    catalog.scalars
    ++ joined (
        map
          (λ (l : Text × List Text).
            if is_table_kind (field_kind catalog l.0) then loop_fields l.0 l.1 else l.0 ∷ [])
          catalog.loops)

abbrev pub entry_of : FieldCatalog → Text → FieldMeta → CatalogEntry
entry_of catalog key meta = record {
  key = key;
  label = meta.label;
  description = meta.description;
  required = includes catalog.required key || meta.required_in_table;
  kind = meta.kind;
}

-- `none` stands for the TypeError of a key that has no metadata.
pub entries_of : FieldCatalog → List Text → Option (List CatalogEntry)
entries_of catalog [] = some []
entries_of catalog (key ∷ keys) = elim (get catalog.meta key) [
  | none ↦ none
  | some meta ↦ elim (entries_of catalog keys) [
    | none ↦ none
    | some entries ↦ some (entry_of catalog key meta ∷ entries)
  ]
]

abbrev pub required_first : List CatalogEntry → List CatalogEntry
required_first entries =
    filter (λ (e : CatalogEntry). e.required) entries
    ++ filter (λ (e : CatalogEntry). not e.required) entries

pub build_template_catalog : FieldCatalog → Option (List CatalogEntry)
unfolding entries_of
build_template_catalog catalog = elim (entries_of catalog (catalog_keys catalog)) [
  | none ↦ none
  | some entries ↦ some (required_first entries)
]

-- The tags of a document, as getTags() of docxtemplater returns them.
pub data TagTree : Type 0 where
  leaf : TagTree
  tag : (name : Text) (children : TagTree) (others : TagTree) → TagTree

abbrev pub scoped : Option Text → Text → Text
scoped none name = name
scoped (some loop) name = dotted loop name

-- The loop of collect, over the entries of a tree.
pub collect : List Text → List Text → Option Text → TagTree → List Text
collect loops found loop leaf = found
collect loops found loop (tag name children others) =
    let inner : Option Text = if includes loops name then some name else loop in
    collect loops (collect loops (add found (scoped loop name)) inner children) loop others

-- ===== src/TaxRoll/Roll.antt =====
-- apps/backend/src/tax-roll/persist-tax-roll.ts, its first half: the rows of a tax roll, gathered by
-- property, owner and period, and the upserts of properties and owners. An amount, a coordinate or a
-- document number is stored and never computed with. The key `${cadastralCode}:${period}` stands for
-- the pair of its parts. The columns are those of packages/shared/prisma.
use slomp.Prelude.{
  ℕ, ◌+◌, Bool, ◌&&◌, not, Option, none, some, List, [], ◌∷◌, ◌++◌, if◌then◌else◌, ◌==◌, nat_eq,
  string_eq, pair_eq, filter, any, includes, get, set, get_or, String,
}
use slomp.Database.{update_where}

pub data LandUse : Type 0 where
  rural urban : LandUse

pub data DocumentTypeCode : Type 0 where
  rc ti cc_type te ce nit pa tde pep ppt nuip : DocumentTypeCode

-- A row of a tax roll, with the six amounts of SETTLEMENT_DETAIL_CONCEPTS in their order.
pub record TaxRollRow : Type 0 where
  pub cadastral_code : String
  pub land_use : Option LandUse
  pub appraisal_value : ℕ
  pub rural_district : Option String
  pub neighborhood : Option String
  pub latitude : Option ℕ
  pub longitude : Option ℕ
  pub tax_id : String
  pub document_type : Option DocumentTypeCode
  pub owner_name : Option String
  pub property_name : String
  pub period : ℕ
  pub property_tax : ℕ
  pub property_tax_interest : ℕ
  pub environmental_fee : ℕ
  pub environmental_fee_interest : ℕ
  pub fire_surcharge : ℕ
  pub fire_surcharge_interest : ℕ
  pub total : ℕ

pub record Property : Type 0 where
  pub id : ℕ
  pub cadastral_code : String
  pub address : String
  pub rural_district : Option String
  pub neighborhood : Option String
  pub latitude : Option ℕ
  pub longitude : Option ℕ
  pub land_use : Option LandUse
  pub appraisal_value : ℕ
  pub municipality_id : ℕ

pub record Owner : Type 0 where
  pub id : ℕ
  pub municipality_id : ℕ
  pub document_id : String
  pub document_type : Option DocumentTypeCode
  pub name : String

-- `a ?? b`
abbrev pub or_else {ℓ} : {A : Type ℓ} → Option A → Option A → Option A
or_else none b = b
or_else (some a) b = some a

-- The row of a property with what an earlier row of it stated and it does not.
abbrev pub filled_in : TaxRollRow → Option TaxRollRow → TaxRollRow
filled_in row none = row
filled_in row (some previous) = record row {
  rural_district = or_else row.rural_district previous.rural_district;
  neighborhood = or_else row.neighborhood previous.neighborhood;
  latitude = or_else row.latitude previous.latitude;
  longitude = or_else row.longitude previous.longitude;
  land_use = or_else row.land_use previous.land_use;
}

pub record Gathered : Type 0 where
  pub by_code : List (String × TaxRollRow)
  pub by_tax_id : List (String × TaxRollRow)
  pub by_period : List ((String × ℕ) × TaxRollRow)

abbrev pub gather_row : Gathered → TaxRollRow → Gathered
gather_row g row = record {
  by_code = set g.by_code row.cadastral_code (filled_in row (get g.by_code row.cadastral_code));
  by_tax_id = set g.by_tax_id row.tax_id row;
  by_period = set g.by_period (row.cadastral_code, row.period) row;
}

unfoldable pub gather : Gathered → List TaxRollRow → Gathered
gather g [] = g
gather g (row ∷ rows) = gather (gather_row g row) rows

abbrev pub empty : Gathered
empty = record { by_code = []; by_tax_id = []; by_period = [] }

-- The properties of another municipality that have a code of the roll.
unfoldable pub foreign_properties : ℕ → List String → List Property → List Property
foreign_properties municipality_id codes =
    filter (λ p. includes codes p.cadastral_code && not (p.municipality_id == municipality_id))

abbrev pub new_property : ℕ → ℕ → TaxRollRow → Property
new_property municipality_id id row = record {
  id = id;
  cadastral_code = row.cadastral_code;
  address = row.property_name;
  rural_district = row.rural_district;
  neighborhood = row.neighborhood;
  latitude = row.latitude;
  longitude = row.longitude;
  land_use = row.land_use;
  appraisal_value = row.appraisal_value;
  municipality_id = municipality_id;
}

-- A value that the row does not state leaves the known one.
abbrev pub updated_property : TaxRollRow → Property → Property
updated_property row p = record p {
  address = row.property_name;
  rural_district = or_else row.rural_district p.rural_district;
  neighborhood = or_else row.neighborhood p.neighborhood;
  latitude = or_else row.latitude p.latitude;
  longitude = or_else row.longitude p.longitude;
  land_use = or_else row.land_use p.land_use;
  appraisal_value = row.appraisal_value;
}

-- Rows with the number that the next new row gets.
abbrev pub Numbered : Type 0 → Type 0
Numbered A = List A × ℕ

abbrev pub has_code : String → Property → Bool
has_code code p = p.cadastral_code == code

abbrev pub upsert_property : ℕ → TaxRollRow → Numbered Property → Numbered Property
upsert_property municipality_id row (properties, next) =
    if any (has_code row.cadastral_code) properties
    then (update_where (has_code row.cadastral_code) (updated_property row) properties, next)
    else (properties ++ new_property municipality_id next row ∷ [], next + 1)

unfoldable pub upsert_properties : ℕ → List TaxRollRow → Numbered Property → Numbered Property
upsert_properties municipality_id [] t = t
upsert_properties municipality_id (row ∷ rows) t =
    upsert_properties municipality_id rows (upsert_property municipality_id row t)

abbrev pub no_owner_name_placeholder : String
no_owner_name_placeholder = "Propietario sin nombre registrado"

abbrev pub is_owner : ℕ → String → Owner → Bool
is_owner municipality_id document_id o =
    o.municipality_id == municipality_id && o.document_id == document_id

-- `row.ownerName ?? …` on creation; on an update an empty name counts as none.
abbrev pub stated_name : Option String → String → String
stated_name none known = known
stated_name (some name) known = if name == "" then known else name

abbrev pub upsert_owner : ℕ → TaxRollRow → Numbered Owner → Numbered Owner
upsert_owner municipality_id row (owners, next) =
    if any (is_owner municipality_id row.tax_id) owners
    then (
      update_where (is_owner municipality_id row.tax_id)
          (λ o. record o {
            name = stated_name row.owner_name o.name;
            document_type = or_else row.document_type o.document_type;
          })
          owners,
      next,
    )
    else (
      owners
          ++ record {
            id = next;
            municipality_id = municipality_id;
            document_id = row.tax_id;
            document_type = row.document_type;
            name = get_or row.owner_name no_owner_name_placeholder;
          }
            ∷ [],
      next + 1,
    )

unfoldable pub upsert_owners : ℕ → List TaxRollRow → Numbered Owner → Numbered Owner
upsert_owners municipality_id [] t = t
upsert_owners municipality_id (row ∷ rows) t =
    upsert_owners municipality_id rows (upsert_owner municipality_id row t)

-- `new Map(rows.map(…))`: the last row with a key counts.
abbrev pub index_properties : List (String × ℕ) → List Property → List (String × ℕ)
index_properties ids [] = ids
index_properties ids (p ∷ properties) = index_properties (set ids p.cadastral_code p.id) properties

abbrev pub index_owners : List (String × ℕ) → List Owner → List (String × ℕ)
index_owners ids [] = ids
index_owners ids (o ∷ owners) = index_owners (set ids o.document_id o.id) owners

unfoldable pub property_ids : ℕ → List String → List Property → List (String × ℕ)
property_ids municipality_id codes properties = index_properties [] (
    filter (λ p. p.municipality_id == municipality_id && includes codes p.cadastral_code)
      properties)

unfoldable pub owner_ids : ℕ → List String → List Owner → List (String × ℕ)
owner_ids municipality_id tax_ids owners =
    index_owners []
      (filter (λ o. o.municipality_id == municipality_id && includes tax_ids o.document_id) owners)

-- createMany with skipDuplicates.
unfoldable pub link_owners :
    List (String × ℕ) → List (String × ℕ) → List (String × TaxRollRow) → List (ℕ × ℕ) → List (ℕ × ℕ)
link_owners properties owners [] links = links
link_owners properties owners ((code, row) ∷ rows) links =
    let link : ℕ × ℕ = (get_or (get properties code) 0, get_or (get owners row.tax_id) 0) in
    link_owners properties owners rows (if includes links link then links else links ++ link ∷ [])

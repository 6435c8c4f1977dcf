-- ===== src/TaxRoll/Import.antt =====
-- apps/backend/src/tax-roll/persist-tax-roll.ts, the settlements of an import, and
-- tax-roll.service.ts, the import as one transaction that holds the lock of its municipality. Every
-- code of the roll was upserted before its property's id is looked up, so the lookup finds one.
pub mod Current
pub mod Firm
use slomp.Prelude.{
  ℕ, ◌+◌, Bool, true, false, ◌&&◌, ◌||◌, not, Option, none, some, List, [], ◌∷◌, ◌++◌, map,
  if◌then◌else◌, ◌==◌, nat_eq, string_eq, pair_eq, Eq, filter, any, includes, get, set, get_or,
  keys, values, length, String, ltb, is_some, is_none, Result, ok, err, ◌>>=◌, ◌>>◌, throw_if,
}
use slomp.Database.{update_where}
use slomp.Settlements.Status.{SettlementStatus, vigente, en_firme, status_eq}
use slomp.Settlements.Rows.{SettlementRow}
use slomp.TaxRoll.Missing.{find_missing_periods}
use slomp.TaxRoll.Roll.{
  TaxRollRow, Property, Owner, Gathered, gather, empty, foreign_properties, Numbered,
  upsert_properties, upsert_owners, property_ids, owner_ids, link_owners,
}

pub record Registry : Type 0 where
  pub properties : Numbered Property
  pub owners : Numbered Owner
  pub property_owners : List (ℕ × ℕ)
  pub settlements : List SettlementRow
  pub next_settlement : ℕ
  pub totals : List (ℕ × ℕ)
  pub details : List (ℕ × (String × ℕ))

abbrev pub Conflict : Type 0
Conflict = String × ℕ

pub record PersistResult : Type 0 where
  pub properties : ℕ
  pub owners : ℕ
  pub settlements : ℕ
  pub conflicts : List Conflict
  pub locked : List Conflict

abbrev pub amounts : TaxRollRow → List (String × ℕ)
amounts row =
    ("Impuesto Predial", row.property_tax)
    ∷ ("Interés Impuesto Predial", row.property_tax_interest)
    ∷ ("C.A.R.", row.environmental_fee)
    ∷ ("Interés C.A.R.", row.environmental_fee_interest)
    ∷ ("Sobretasa Bomberil", row.fire_surcharge)
    ∷ ("Interés Sobretasa Bomberil", row.fire_surcharge_interest)
    ∷ []

abbrev pub is_current_of : ℕ → List ℕ → SettlementRow → Bool
is_current_of municipality_id ids s =
    includes ids s.property_id && s.municipality_id == municipality_id && is_none s.replaced_at

abbrev pub index_current :
    List ((ℕ × ℕ) × SettlementRow) → List SettlementRow → List ((ℕ × ℕ) × SettlementRow)
index_current m [] = m
index_current m (s ∷ rows) = index_current (set m (s.property_id, s.period) s) rows

-- A row of the roll with its property's id and the settlement that it meets.
pub record Classified : Type 0 where
  pub row : TaxRollRow
  pub property_id : ℕ
  pub current : Option SettlementRow

pub classify : List (String × ℕ) → List SettlementRow → List TaxRollRow → List Classified
classify ids current rows =
    map
      (λ (row : TaxRollRow).
        let property_id = get_or (get ids row.cadastral_code) 0 in
        record {
          row = row;
          property_id = property_id;
          current = get (index_current [] current) (property_id, row.period);
        })
      rows

abbrev pub meets_firm : Option SettlementRow → Bool
meets_firm none = false
meets_firm (some s) = s.status == en_firme

abbrev pub locked_rows : List Classified → List Classified
locked_rows = filter (λ (c : Classified). meets_firm c.current)

abbrev pub free_rows : List Classified → List Classified
free_rows = filter (λ (c : Classified). not (meets_firm c.current))

abbrev pub conflicting_rows : List Classified → List Classified
conflicting_rows rows = filter (λ (c : Classified). is_some c.current) (free_rows rows)

abbrev pub conflict_of : Classified → Conflict
conflict_of c = (c.row.cadastral_code, c.row.period)

abbrev pub id_of : Option SettlementRow → ℕ
id_of none = 0
id_of (some s) = s.id

abbrev pub current_ids : List Classified → List ℕ
current_ids = map (λ (c : Classified). id_of c.current)

-- updateMany on settlements of the municipality, by their ids.
abbrev pub update_settlements :
    ℕ → List ℕ → (SettlementRow → SettlementRow) → List SettlementRow → List SettlementRow
update_settlements municipality_id ids f =
    update_where (λ s. includes ids s.id && s.municipality_id == municipality_id) f

abbrev pub replace : ℕ → SettlementRow → SettlementRow
replace now s = record s { replaced_at = some now }

abbrev pub miss : ℕ → SettlementRow → SettlementRow
miss now s = record s { missing_since = some now }

abbrev pub new_settlement : ℕ → ℕ → Classified → SettlementRow
new_settlement municipality_id id c = record {
  id = id;
  municipality_id = municipality_id;
  property_id = c.property_id;
  cadastral_code = c.row.cadastral_code;
  period = c.row.period;
  status = vigente;
  replaced_at = none;
  missing_since = none;
  resolution = none;
  payment_order = none;
}

-- The two INSERT statements, with the new settlements numbered from `id` on.
pub new_settlements : ℕ → ℕ → List Classified → List SettlementRow
new_settlements municipality_id id [] = []
new_settlements municipality_id id (c ∷ rows) =
    new_settlement municipality_id id c ∷ new_settlements municipality_id (id + 1) rows

pub new_totals : ℕ → List Classified → List (ℕ × ℕ)
new_totals id [] = []
new_totals id (c ∷ rows) = (id, c.row.total) ∷ new_totals (id + 1) rows

pub new_details : ℕ → List Classified → List (ℕ × (String × ℕ))
new_details id [] = []
new_details id (c ∷ rows) =
    map (λ (a : String × ℕ). (id, a)) (amounts c.row) ++ new_details (id + 1) rows

-- The periods that the import no longer brings, of those not known to be missing.
pub newly_missing : List SettlementRow → List Classified → List ℕ
newly_missing current rows =
    map (λ s. s.id)
      (find_missing_periods
        (map
          (λ (s : SettlementRow). record {
            id = s.id;
            property_id = s.property_id;
            period = s.period;
          })
          (filter (λ (s : SettlementRow). is_none s.missing_since) current))
        (map (λ (c : Classified). record { property_id = c.property_id; period = c.row.period })
          rows))

-- The pass that writes settlements.
unfoldable pub write_settlements :
    ℕ → ℕ → List SettlementRow → List Classified → Registry → Registry
unfolding new_settlements new_totals new_details newly_missing
write_settlements municipality_id now current rows r =
    let free = free_rows rows in
    let superseded =
      update_settlements municipality_id (current_ids (conflicting_rows rows)) (replace now)
        r.settlements in
    let marked =
      update_settlements municipality_id (newly_missing current rows) (miss now) superseded in
    record r {
      settlements = marked ++ new_settlements municipality_id r.next_settlement free;
      next_settlement = r.next_settlement + length free;
      totals = r.totals ++ new_totals r.next_settlement free;
      details = r.details ++ new_details r.next_settlement free;
    }

-- Properties, owners and their links, before the settlements.
pub write_roll : ℕ → Gathered → Registry → Registry
unfolding upsert_properties upsert_owners link_owners property_ids owner_ids
write_roll municipality_id g r =
    let properties = upsert_properties municipality_id (values g.by_code) r.properties in
    let owners = upsert_owners municipality_id (values g.by_tax_id) r.owners in
    let ids = property_ids municipality_id (keys g.by_code) properties.0 in
    let owner_by_id = owner_ids municipality_id (keys g.by_tax_id) owners.0 in
    record r {
      properties = properties;
      owners = owners;
      property_owners = link_owners ids owner_by_id g.by_code r.property_owners;
    }

abbrev pub current_of : ℕ → Gathered → Registry → List SettlementRow
current_of municipality_id g r =
    filter
      (is_current_of municipality_id
        (values (property_ids municipality_id (keys g.by_code) r.properties.0)))
      r.settlements

abbrev pub classified_of : ℕ → Gathered → Registry → List Classified
classified_of municipality_id g r =
    classify (property_ids municipality_id (keys g.by_code) r.properties.0)
      (current_of municipality_id g r) (values g.by_period)

-- From the classified rows on.
abbrev pub persist_classified :
    ℕ
    → ℕ
    → Bool
    → Gathered
    → List SettlementRow
    → List Classified
    → Registry
    → Registry × PersistResult
persist_classified municipality_id now confirm_replace g current rows r =
    let persists = confirm_replace || length (conflicting_rows rows) == 0 in
    let result : PersistResult = record {
      properties = length g.by_code;
      owners = length g.by_tax_id;
      settlements = if persists then length (free_rows rows) else 0;
      conflicts = if persists then [] else map conflict_of (conflicting_rows rows);
      locked = map conflict_of (locked_rows rows);
    } in
    (if persists then write_settlements municipality_id now current rows r else r, result)

pub data ImportError : Type 0 where
  tax_roll_wrong_municipality : (mismatched_rows : ℕ) → ImportError
  bulk_generation_in_progress : ImportError

abbrev pub persist_gathered : ℕ → ℕ → Bool → Gathered → Registry → Registry × PersistResult
persist_gathered municipality_id now confirm_replace g r =
    let r' = write_roll municipality_id g r in
    persist_classified municipality_id now confirm_replace g (current_of municipality_id g r')
      (classified_of municipality_id g r') r'

abbrev pub nothing_persisted : PersistResult
nothing_persisted = record {
  properties = 0;
  owners = 0;
  settlements = 0;
  conflicts = [];
  locked = [];
}

pub persist_tax_roll :
    ℕ → ℕ → List TaxRollRow → Bool → Registry → Result ImportError (Registry × PersistResult)
unfolding gather foreign_properties write_roll classify write_settlements
persist_tax_roll municipality_id now rows confirm_replace r =
    let g = gather empty rows in
    let foreign = length (foreign_properties municipality_id (keys g.by_code) r.properties.0) in
    if length rows == 0
    then ok (r, nothing_persisted)
    else if ltb 0 foreign
    then err (tax_roll_wrong_municipality foreign)
    else ok (persist_gathered municipality_id now confirm_replace g r)

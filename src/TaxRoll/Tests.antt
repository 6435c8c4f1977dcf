-- ===== src/TaxRoll/Tests.antt =====
-- The periods of a roll, and an import that meets a settlement of 2020 and one that is EN_FIRME.
use slomp.Settlements.Status.{SettlementStatus, vigente, en_firme}
use slomp.Settlements.Rows.{SettlementRow}
use slomp.TaxRoll.Roll.{TaxRollRow}
use slomp.TaxRoll.Import.{Registry, Classified, write_settlements}
use slomp.TaxRoll.Import.Current.{IsClassified, NotBothCurrent, write_settlements-single}
use slomp.TaxRoll.Import.Firm.{write_settlements-firm}
use slomp.Prelude.{
  List, Option, none, some, refl, All, Pairwise, map, ℕ, ◌≡◌, ◌↔◌, [], ◌∷◌, arith, Any,
}
use slomp.TaxRoll.Missing.{CurrentPeriod, IncomingPeriod, find_missing_periods}
use slomp.TaxRoll.Missing.Reported.{Brings, BringsPeriod, find_missing_periods_iff}

abbrev now : ℕ
now = 1700000000000

abbrev held : ℕ → ℕ → CurrentPeriod
held id period = record { id = id; property_id = 5; period = period }

abbrev brought : ℕ → IncomingPeriod
brought period = record { property_id = 5; period = period }

find_missing_periods_iff_example :
    Any
      (λ x. x ≡ held 2 2020)
      (find_missing_periods (held 1 2019 ∷ held 2 2020 ∷ []) (brought 2019 ∷ []))
    ↔ (Any (λ x. x ≡ held 2 2020) (held 1 2019 ∷ held 2 2020 ∷ [])
        × Brings (brought 2019 ∷ []) 5
        × ¬ BringsPeriod (brought 2019 ∷ []) 5 2020)
find_missing_periods_iff_example =
    find_missing_periods_iff (held 1 2019 ∷ held 2 2020 ∷ []) (brought 2019 ∷ []) (held 2 2020)

abbrev settlement : ℕ → ℕ → SettlementStatus → SettlementRow
settlement id period status = record {
  id = id;
  municipality_id = 1;
  property_id = 5;
  cadastral_code = "1951700010001";
  period = period;
  status = status;
  replaced_at = none;
  missing_since = none;
  resolution = none;
  payment_order = none;
}

abbrev settlements : List SettlementRow
settlements = settlement 1 2019 en_firme ∷ settlement 2 2020 vigente ∷ []

abbrev roll_row : ℕ → TaxRollRow
roll_row period = record {
  cadastral_code = "1951700010001";
  land_use = none;
  appraisal_value = 1000;
  rural_district = none;
  neighborhood = none;
  latitude = none;
  longitude = none;
  tax_id = "40587912";
  document_type = none;
  owner_name = none;
  property_name = "Lote";
  period = period;
  property_tax = 10;
  property_tax_interest = 0;
  environmental_fee = 0;
  environmental_fee_interest = 0;
  fire_surcharge = 0;
  fire_surcharge_interest = 0;
  total = 10;
}

abbrev met_by : ℕ → Option SettlementRow → Classified
met_by period current = record { row = roll_row period; property_id = 5; current = current }

abbrev rows : List Classified
rows =
    met_by 2019 (some (settlement 1 2019 en_firme))
    ∷ met_by 2020 (some (settlement 2 2020 vigente))
    ∷ met_by 2021 none
    ∷ []

abbrev registry : Registry
registry = record {
  properties = ([], 6);
  owners = ([], 1);
  property_owners = [];
  settlements = settlements;
  next_settlement = 3;
  totals = [];
  details = [];
}

abbrev classified_rows : All (IsClassified (5 ∷ []) settlements) rows
classified_rows = (
  record { known = refl; found = refl },
  (record { known = refl; found = refl }, (record { known = refl; found = refl }, tt)),
)

write_settlements-single_example :
    Pairwise NotBothCurrent (write_settlements 1 now settlements rows registry).settlements
write_settlements-single_example =
    write_settlements-single 1 now (5 ∷ []) settlements rows
      (((λ e n. absurd (ground (arith, e))), tt), (tt, tt)) ((λ h. refl), ((λ h. refl), tt))
      classified_rows registry refl
      ((ground arith, (ground arith, tt)), ((ground arith, tt), (tt, tt)))

write_settlements-firm_example :
    All
      (λ s.
        s.status ≡ en_firme
        → Any
            (λ t. (t.id ≡ s.id) × (t.status ≡ en_firme) × (t.replaced_at ≡ s.replaced_at))
            (write_settlements 1 now settlements rows registry).settlements)
      settlements
write_settlements-firm_example =
    write_settlements-firm 1 now (5 ∷ []) settlements rows ((ground arith, tt), (tt, tt))
      classified_rows registry refl

after_import :
    map {B = ℕ × Option ℕ}
      (λ (s : SettlementRow). (s.period, s.replaced_at))
      (write_settlements 1 now settlements rows registry).settlements
    ≡ (2019, none) ∷ (2020, some now) ∷ (2020, none) ∷ (2021, none) ∷ []
unfolding write_settlements find_missing_periods
after_import = refl

-- ===== src/Settlements/Change.antt =====
-- apps/backend/src/settlements/settlements.service.ts, changeStatus and missingPeriodsOfGroup, with
-- groupSettlementsForResolution (apps/backend/src/resolutions/group-settlements-for-resolution.ts)
-- and isMissingPeriod (group-search-results.ts). The settlement is read in the state `read` of the
-- registry, and the transaction runs in a later state `w`, which other requests may have changed.
pub mod Outcomes
use slomp.Prelude.{
  ℕ, Bool, true, false, ◌&&◌, not, Option, none, some, List, [], ◌∷◌, ◌++◌, map, if◌then◌else◌,
  ◌==◌, nat_eq, Eq, find, filter, includes, is_some, is_none, Result, ok, err, ◌>>=◌, ◌>>◌,
  throw_if, or_throw,
}
use slomp.Prelude.Sorting.{sort_by}
use slomp.TaxRoll.Periods.{is_prescription_risk, current_year_in_colombia}
use slomp.Settlements.Status.{SettlementStatus, vigente, status_eq, allowed_statuses}
use slomp.Settlements.Rows.{
  SettlementRow, SettlementEvent, manual, Registry, Document, context_of, claim_status,
}

pub data ChangeError : Type 0 where
  settlement_status_invalid settlement_not_found settlement_already_replaced : ChangeError
  settlement_status_transition_not_allowed settlement_status_changed : ChangeError

pub record SettlementStatusChangeResult : Type 0 where
  pub settlement_id : ℕ
  pub settlement_ids : List ℕ
  pub status : SettlementStatus
  pub allowed_statuses : List SettlementStatus
  pub missing_periods : List ℕ

abbrev bool_eq : Bool → Bool → Bool
bool_eq true b = b
bool_eq false b = not b

-- None where the trigger is not in the list, where the code throws.
pub group_settlements_for_resolution : List SettlementRow → ℕ → ℕ → Option (List SettlementRow)
group_settlements_for_resolution settlements trigger_settlement_id current_year =
    elim (find (λ s. s.id == trigger_settlement_id) settlements) [
      | none ↦ none
      | some trigger ↦ some (
          sort_by (λ s. s.period)
            (filter
              (λ s.
                bool_eq (is_prescription_risk s.period current_year)
                  (is_prescription_risk trigger.period current_year))
              settlements))
    ]

pub is_missing_period : SettlementRow → Bool
is_missing_period s = is_some s.missing_since && s.status == vigente

abbrev is_of_resolution : ℕ → Option Document → Bool
is_of_resolution id none = false
is_of_resolution id (some d) = d.id == id

-- The members of the group and the ids that count, as the two cases of missingPeriodsOfGroup.
abbrev members_of : ℕ → SettlementRow → Option Document → List SettlementRow → List SettlementRow
members_of municipality_id settlement (some resolution) rows =
    filter
      (λ s.
        is_of_resolution resolution.id s.resolution
        && is_none s.replaced_at
        && s.municipality_id == municipality_id)
      rows
members_of municipality_id settlement none rows =
    filter
      (λ s.
        s.property_id == settlement.property_id
        && s.municipality_id == municipality_id
        && is_none s.replaced_at
        && is_none s.resolution)
      rows

abbrev group_of :
    SettlementRow → Option Document → ℕ → List SettlementRow → Option (List SettlementRow)
group_of settlement (some resolution) current_year members = some members
group_of settlement none current_year members =
    group_settlements_for_resolution members settlement.id current_year

pub missing_periods_of_group : ℕ → SettlementRow → ℕ → List SettlementRow → Option (List ℕ)
missing_periods_of_group municipality_id settlement now rows =
    let members = members_of municipality_id settlement settlement.resolution rows in
    elim (group_of settlement settlement.resolution (current_year_in_colombia now) members) [
      | none ↦ none
      | some group ↦ some (
          sort_by (λ p. p)
            (map (λ m. m.period)
              (filter (λ m. includes (map (λ g. g.id) group) m.id && is_missing_period m) members)))
    ]

abbrev pub find_settlement : ℕ → ℕ → Registry → Option SettlementRow
find_settlement municipality_id id read =
    find (λ s. s.id == id && s.municipality_id == municipality_id) read.settlements

-- The checks on the settlement that was read, up to the transaction.
unfoldable pub check_change :
    ℕ
    → ℕ
    → Option SettlementStatus
    → ℕ
    → Registry
    → Result ChangeError (SettlementRow × SettlementStatus)
check_change municipality_id id status now read = do
  target ← or_throw status settlement_status_invalid
  settlement ← or_throw (find_settlement municipality_id id read) settlement_not_found
  throw_if (is_some settlement.replaced_at) settlement_already_replaced
  throw_if (not (includes (allowed_statuses (context_of settlement now)) target))
      settlement_status_transition_not_allowed
  ok (settlement, target)

abbrev pub manual_event : ℕ → ℕ → ℕ → SettlementStatus → SettlementStatus → SettlementEvent
manual_event municipality_id administrator_id id from to = record {
  settlement_id = id;
  municipality_id = municipality_id;
  from_status = from;
  to_status = to;
  source = manual;
  note = none;
  administrator_id = administrator_id;
}

-- The transaction: it claims the settlement and writes the event, or changes nothing.
unfoldable pub write_change :
    ℕ → ℕ → ℕ → SettlementStatus → SettlementStatus → Registry → Result ChangeError Registry
write_change municipality_id administrator_id id from to w =
    let claimed = claim_status id from to w.settlements in
    if to == from
    then ok w
    else if claimed.1 == 0
    then err settlement_status_changed
    else ok (record {
      settlements = claimed.0;
      events = w.events ++ manual_event municipality_id administrator_id id from to ∷ [];
    })

unfoldable pub change_status :
    ℕ → ℕ → ℕ → Option SettlementStatus → ℕ → Registry → Registry → Result ChangeError Registry
unfolding check_change write_change
change_status municipality_id administrator_id id status now read w = do
  (settlement, target) ← check_change municipality_id id status now read
  write_change municipality_id administrator_id id settlement.status target w

-- What the call answers, given the rows after its transaction; none where the code throws.
pub change_result :
    ℕ
    → SettlementRow
    → SettlementStatus
    → ℕ
    → List SettlementRow
    → Option SettlementStatusChangeResult
change_result municipality_id settlement target now rows =
    elim (missing_periods_of_group municipality_id settlement now rows) [
      | none ↦ none
      | some missing ↦ some (record {
        settlement_id = settlement.id;
        settlement_ids = settlement.id ∷ [];
        status = target;
        allowed_statuses =
            allowed_statuses (context_of (record settlement { status = target }) now);
        missing_periods = missing;
      })
    ]

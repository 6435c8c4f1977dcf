-- ===== src/Resolutions/Triggers.antt =====
-- apps/backend/src/resolutions/select-generation-triggers.ts. The key of the map, a text of the
-- property and the kind, is the pair of them.
pub mod Selected
use slomp.Prelude.{
  ℕ, ◌≡◌, ◌↔◌, Bool, true, false, List, [], ◌∷◌, map, if◌then◌else◌, get, set, is_some, Eq, pair_eq,
  nat_eq, arith,
}
use slomp.TaxRoll.Periods.{is_prescription_risk}
use slomp.PdfJobs.Rules.{ResolutionKind, prescription_risk, normal}

abbrev pub kind_beq : ResolutionKind → ResolutionKind → Bool
kind_beq prescription_risk prescription_risk = true
kind_beq normal normal = true
kind_beq _ _ = false

pub kind_beq_iff : (a b : ResolutionKind) → (kind_beq a b ≡ true) ↔ (a ≡ b)
kind_beq_iff a b = ground arith

instance abbrev pub kind_eq : Eq ResolutionKind
kind_eq = record { equals = kind_beq; equals_iff = kind_beq_iff }

pub record PendingSettlement : Type 0 where
  pub id : ℕ
  pub property_id : ℕ
  pub period : ℕ

pub record GenerationTrigger : Type 0 where
  pub id : ℕ
  pub property_id : ℕ
  pub kind : ResolutionKind

abbrev pub kind_of : PendingSettlement → ℕ → ResolutionKind
kind_of s current_year =
    if is_prescription_risk s.period current_year then prescription_risk else normal

abbrev pub group_key : PendingSettlement → ℕ → ℕ × ResolutionKind
group_key s current_year = (s.property_id, kind_of s current_year)

abbrev pub trigger_of : PendingSettlement → ℕ → GenerationTrigger
trigger_of s current_year = record {
  id = s.id;
  property_id = s.property_id;
  kind = kind_of s current_year;
}

-- the loop over the settlements
unfoldable pub trigger_by_group :
    List ((ℕ × ResolutionKind) × GenerationTrigger)
    → List PendingSettlement
    → ℕ
    → List ((ℕ × ResolutionKind) × GenerationTrigger)
trigger_by_group m [] current_year = m
trigger_by_group m (s ∷ ss) current_year =
    trigger_by_group
      (if is_some (get m (group_key s current_year))
        then m
        else set m (group_key s current_year) (trigger_of s current_year))
      ss current_year

unfoldable pub select_generation_triggers : List PendingSettlement → ℕ → List GenerationTrigger
unfolding trigger_by_group
select_generation_triggers settlements current_year =
    map (λ b. b.1) (trigger_by_group [] settlements current_year)

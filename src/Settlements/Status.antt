-- ===== src/Settlements/Status.antt =====
-- apps/backend/src/settlements/settlement-status-rules.ts, with the enum of the database schema.
-- A Date is its time value in milliseconds; the server's clock runs in UTC.
pub mod Transitions
use slomp.Prelude.{
  ℕ, ◌+◌, ◌*◌, ◌≡◌, ◌↔◌, Bool, true, false, ◌||◌, Option, none, some, List, [], ◌∷◌, ◌++◌, arith,
  if◌then◌else◌, ℤ, pos, sub_ℕ, leb_ℤ, leb, filter, includes, Eq,
}
use slomp.Calendar.{day_ms, add_years}

pub data SettlementStatus : Type 0 where
  vigente en_firme pagada acuerdo_de_pago prescrita : SettlementStatus

abbrev pub status_beq : SettlementStatus → SettlementStatus → Bool
status_beq vigente vigente = true
status_beq en_firme en_firme = true
status_beq pagada pagada = true
status_beq acuerdo_de_pago acuerdo_de_pago = true
status_beq prescrita prescrita = true
status_beq _ _ = false

pub status_beq_iff : (a b : SettlementStatus) → (status_beq a b ≡ true) ↔ (a ≡ b)
status_beq_iff a b = ground arith

instance abbrev pub status_eq : Eq SettlementStatus
status_eq = record { equals = status_beq; equals_iff = status_beq_iff }

-- `Object.values(SettlementStatus)`
abbrev pub all_statuses : List SettlementStatus
all_statuses = vigente ∷ en_firme ∷ pagada ∷ acuerdo_de_pago ∷ prescrita ∷ []

abbrev pub en_firme_days : ℕ
en_firme_days = 60

abbrev pub prescription_after_payment_order_years : ℕ
prescription_after_payment_order_years = 5

pub record StatusContext : Type 0 where
  pub current : SettlementStatus
  pub resolution_issued_at : Option ℕ
  pub payment_order_at : Option ℕ
  pub now : ℕ

unfoldable pub en_firme_cutoff : ℕ → ℤ
en_firme_cutoff now = sub_ℕ now (en_firme_days * day_ms)

unfoldable pub base_status : Option ℕ → ℕ → SettlementStatus
unfolding en_firme_cutoff
base_status none now = vigente
base_status (some issued) now =
    if leb_ℤ (pos issued) (en_firme_cutoff now) then en_firme else vigente

pub years_later : ℕ → ℕ → ℕ
years_later date years = add_years date years

-- `canPrescribe` of allowedStatuses
unfoldable pub can_prescribe : Option ℕ → ℕ → Bool
unfolding years_later
can_prescribe none now = true
can_prescribe (some ordered) now =
    leb (years_later ordered prescription_after_payment_order_years) now

unfoldable pub allowed_statuses : StatusContext → List SettlementStatus
unfolding base_status can_prescribe
allowed_statuses c = filter (includes allowed) all_statuses
  where
    base : SettlementStatus
    base = base_status c.resolution_issued_at c.now

    allowed : List SettlementStatus
    allowed =
        c.current
        ∷ base
        ∷ pagada
        ∷ acuerdo_de_pago
        ∷ (if can_prescribe c.payment_order_at c.now then prescrita ∷ [] else [])

unfoldable pub is_transition_allowed : StatusContext → SettlementStatus → Bool
unfolding allowed_statuses
is_transition_allowed c target = includes (allowed_statuses c) target

-- ===== src/Settlements/EnFirme.antt =====
-- apps/backend/src/settlements/en-firme.service.ts: what the sweep leaves behind.
use slomp.Prelude.{
  ℕ, ◌≡◌, ◌≢◌, refl, ap, false, none, List, [], ◌∷◌, Option-cases, arith, inl, inr, ◌⊎◌, All,
  if◌then◌else◌,
}
use slomp.Settlements.Status.{vigente, en_firme, status_eq, base_status}
use slomp.Settlements.Rows.{SettlementRow, issued_at_of, is_due, set_status, mark_en_firme}

-- The stored state does not lag behind the derived one.
abbrev pub IsUpToDate : ℕ → SettlementRow → Type 0
IsUpToDate now row =
    (row.status ≢ vigente)
    ⊎ (row.replaced_at ≢ none)
    ⊎ (base_status (issued_at_of row.resolution) now ≡ vigente)

due_or_not :
    (now : ℕ) (row : SettlementRow)
    → IsUpToDate now (if is_due now row then set_status en_firme row else row)
unfolding base_status
due_or_not now row = elim (Option-cases row.resolution) [
  | inl e ↦ ground (arith, e)
  | inr (d, e) ↦ ground (arith, e)
]

-- After a sweep no current settlement is still VIGENTE whose derived state is EN_FIRME.
mark_en_firme-IsUpToDate :
    (now : ℕ) (rows : List SettlementRow) → All (IsUpToDate now) (mark_en_firme now rows).0
unfolding mark_en_firme
mark_en_firme-IsUpToDate now [] = tt
mark_en_firme-IsUpToDate now (row ∷ rows) = (due_or_not now row, mark_en_firme-IsUpToDate now rows)

not_due : (now : ℕ) (row : SettlementRow) → IsUpToDate now row → is_due now row ≡ false
unfolding base_status
not_due now row h = elim (Option-cases row.resolution) [
  | inl e ↦ ground (arith, e)
  | inr (d, e) ↦ ground (arith, e)
]

nothing_due :
    (now : ℕ) (rows : List SettlementRow)
    → All (IsUpToDate now) rows
    → mark_en_firme now rows ≡ (rows, 0)
unfolding mark_en_firme
nothing_due now [] h = refl
nothing_due now (row ∷ rows) (h, hs) =
    let miss : is_due now row ≡ false = not_due now row h in
    rw (miss) (ap (λ r. (row ∷ r.0, r.1)) (nothing_due now rows hs))

-- A second sweep at the same time changes nothing.
mark_en_firme_idempotent :
    (now : ℕ) (rows : List SettlementRow)
    → mark_en_firme now (mark_en_firme now rows).0 ≡ ((mark_en_firme now rows).0, 0)
mark_en_firme_idempotent now rows =
    nothing_due now (mark_en_firme now rows).0 (mark_en_firme-IsUpToDate now rows)

-- ===== src/PdfJobs/Rules.antt =====
-- apps/backend/src/pdf-jobs/pdf-job-rules.ts. Texts are lists of character codes.
pub mod Batches
use slomp.Prelude.{
  ℕ, zero, suc, ◌+◌, ◌-◌, ◌*◌, ◌≡◌, ◌↔◌, Bool, true, false, ◌&&◌, ◌||◌, Option, none, some, List,
  [], ◌∷◌, ◌++◌, arith, if◌then◌else◌, ◌==◌, nat_eq, string_eq, Eq, ℤ, sub_ℕ, take, drop, length,
  codes, String, is_some,
}
use slomp.Resolutions.Numbering.{decimal}
use slomp.TaxRoll.Periods.{prescription_years}

pub data PdfJobStatus : Type 0 where
  preparing running assembling done failed expired : PdfJobStatus

abbrev pub job_status_beq : PdfJobStatus → PdfJobStatus → Bool
job_status_beq preparing preparing = true
job_status_beq running running = true
job_status_beq assembling assembling = true
job_status_beq done done = true
job_status_beq failed failed = true
job_status_beq expired expired = true
job_status_beq _ _ = false

pub job_status_beq_iff : (a b : PdfJobStatus) → (job_status_beq a b ≡ true) ↔ (a ≡ b)
job_status_beq_iff a b = ground arith

instance abbrev pub job_status_eq : Eq PdfJobStatus
job_status_eq = record { equals = job_status_beq; equals_iff = job_status_beq_iff }

pub data PdfDocumentType : Type 0 where
  liquidacion mandamiento : PdfDocumentType

pub data ResolutionKind : Type 0 where
  prescription_risk normal : ResolutionKind

abbrev pub active_job_statuses : List PdfJobStatus
active_job_statuses = preparing ∷ running ∷ assembling ∷ []

abbrev pub batch_phase_statuses : List PdfJobStatus
batch_phase_statuses = preparing ∷ running ∷ []

-- the loop of splitIntoBatches; `fuel` bounds the rounds
pub batches_from {ℓ} : {A : Type ℓ} → ℕ → List A → ℕ → List (List A)
batches_from zero items size = []
batches_from (suc fuel) [] size = []
batches_from (suc fuel) (x ∷ xs) size =
    take size (x ∷ xs) ∷ batches_from fuel (drop size (x ∷ xs)) size

unfoldable pub split_into_batches {ℓ} : {A : Type ℓ} → List A → ℕ → List (List A)
unfolding batches_from
split_into_batches items size = batches_from (length items) items size

abbrev pub Text : Type 0
Text = List ℕ

-- Years from 5 on.
pub bulk_folder : ResolutionKind → ℕ → Text
bulk_folder kind current_year =
    let cutoff : Text = decimal (current_year - prescription_years + 1) in
    elim kind [
      | prescription_risk ↦ codes "Liquidaciones antes de " ++ cutoff
      | normal ↦ codes "Liquidaciones " ++ cutoff ++ codes " en adelante"
    ]

abbrev pub payment_order_folder : Text
payment_order_folder = codes "Mandamientos de pago"

pub payment_order_file_name : Text → Text
payment_order_file_name number = payment_order_folder ++ codes "/MP-" ++ number ++ codes ".pdf"

pub bulk_zip_file_name : PdfDocumentType → Option ResolutionKind → Text
bulk_zip_file_name mandamiento kind = codes "mandamientos-de-pago.zip"
bulk_zip_file_name liquidacion (some prescription_risk) =
    codes "liquidaciones-riesgo-prescripcion.zip"
bulk_zip_file_name liquidacion _ = codes "liquidaciones-cobro-normal.zip"

unfoldable pub counter_after_revert : ℕ → ℕ → ℕ → Option ℕ
counter_after_revert counter first_sequence last_sequence =
    if counter == last_sequence then some (first_sequence - 1) else none

unfoldable pub minutes_before : ℕ → ℕ → ℤ
minutes_before now minutes = sub_ℕ now (minutes * 60000)

unfoldable pub minutes_after : ℕ → ℕ → ℕ
minutes_after now minutes = now + minutes * 60000

-- What JSON.parse makes of the fields that parsePdfResult reads: none where a field is missing or of
-- another type than the one that is tested.
pub record ResultFields : Type 0 where
  pub schema_version : Option ℕ
  pub type : Option String
  pub status : Option String
  pub batch_index : Option ℕ
  pub job_id : Option ℕ

abbrev is_text : Option String → String → Bool
is_text none text = false
is_text (some s) text = s == text

abbrev is_number : Option ℕ → ℕ → Bool
is_number none n = false
is_number (some m) n = m == n

-- none for text that is no JSON object
pub parse_pdf_result : Option ResultFields → Option ResultFields
parse_pdf_result none = none
parse_pdf_result (some result) =
    let known_type : Bool =
      (is_text result.type "batch-result" && is_some result.batch_index)
      || is_text result.type "zip-result" in
    let known_status : Bool = is_text result.status "DONE" || is_text result.status "FAILED" in
    if is_number result.schema_version 1 && known_type && known_status && is_some result.job_id
    then some result
    else none

-- ===== src/PdfFunction/Render.antt =====
-- apps/pdf-function/src/render.ts and soffice.ts: from a template and its values to PDFs. LibreOffice
-- and docxtemplater are arguments: what a run of the one leaves, and how the other fills a template.
use slomp.Prelude.{
  ℕ, suc, ◌+◌, ◌*◌, ◌-◌, Bool, ◌&&◌, ◌||◌, Option, none, some, List, [], ◌∷◌, map, if◌then◌else◌,
  ◌==◌, nat_eq, list_eq, ltb, length, take, codes, Result, ok, err,
}
use slomp.Prelude.Texts.{starts_with}
use slomp.PdfFunction.Contract.{
  Fields, JobError, JobErrorCode, pdf_template_invalid, template_render_failed,
  pdf_conversion_timeout, pdf_conversion_failed,
}
use slomp.PdfFunction.Storage.{Buffer}

abbrev pub plain_error : JobErrorCode → JobError
plain_error code = record { code = code; details = none }

-- `is_docx` tells whether docxtemplater opens the template, `fill` renders the values.
unfoldable pub render_docx :
    (Buffer → Bool) → (Buffer → Fields → Option Buffer) → Buffer → Fields → Result JobError Buffer
render_docx is_docx fill template values =
    if is_docx template
    then elim (fill template values) [
      | none ↦ err (plain_error template_render_failed)
      | some docx ↦ ok docx
    ]
    else err (plain_error pdf_template_invalid)

abbrev pub contains : Buffer → Buffer → Bool
contains [] part = starts_with [] part
contains (c ∷ t) part = starts_with (c ∷ t) part || contains t part

unfoldable pub is_complete_pdf : Buffer → Bool
is_complete_pdf pdf =
    ltb 5 (length pdf) && take 5 pdf == codes "%PDF-" && contains pdf (codes "%%EOF")

-- How a run ends: killed at its timeout, failed, or with the files it wrote, by their number.
pub data SofficeRun : Type 0 where
  killed failed : SofficeRun
  finished : (ℕ → Option Buffer) → SofficeRun

abbrev pub run_timeout : ℕ → ℕ → ℕ
run_timeout timeout_ms documents = timeout_ms + 5000 * (documents - 1)

unfoldable pub read_pdf : Option Buffer → Result JobError Buffer
unfolding is_complete_pdf
read_pdf none = err (plain_error pdf_conversion_failed)
read_pdf (some pdf) =
    if is_complete_pdf pdf then ok pdf else err (plain_error pdf_conversion_failed)

unfoldable pub read_from : (ℕ → Option Buffer) → ℕ → List Buffer → List (Result JobError Buffer)
unfolding read_pdf
read_from outputs i [] = []
read_from outputs i (doc ∷ docs) = read_pdf (outputs i) ∷ read_from outputs (suc i) docs

abbrev pub conversions : SofficeRun → List Buffer → List (Result JobError Buffer)
conversions killed docs = map (λ _. err (plain_error pdf_conversion_timeout)) docs
conversions failed docs = map (λ _. err (plain_error pdf_conversion_failed)) docs
conversions (finished outputs) docs = read_from outputs 0 docs

-- `soffice` is given the documents and the timeout.
unfoldable pub convert :
    (List Buffer → ℕ → SofficeRun) → ℕ → List Buffer → ℕ → List (Result JobError Buffer)
convert soffice timeout_ms docs documents =
    conversions (soffice docs (run_timeout timeout_ms documents)) docs

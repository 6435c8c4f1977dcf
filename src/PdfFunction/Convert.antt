-- ===== src/PdfFunction/Convert.antt =====
-- apps/pdf-function/src/worker.ts: how the documents of a batch become PDFs. The libraries that the
-- worker calls are arguments.
pub mod Counted
use slomp.Prelude.{
  ℕ, Bool, Option, none, some, List, [], ◌∷◌, map, if◌then◌else◌, ltb, length, Result, ok, err,
}
use slomp.Prelude.Texts.{Text}
use slomp.PdfFunction.Contract.{Json, text, Fields, no_field, field, JobError, BatchDocument}
use slomp.PdfFunction.Storage.{Buffer}
use slomp.PdfFunction.Merge.{Pdf, split_pdf}
use slomp.PdfFunction.Render.{SofficeRun, render_docx, convert}

-- What the worker is started with, and the libraries that it calls.
pub record WorkerDeps : Type 0 where
  pub max_attempts : ℕ
  pub timeout_ms : ℕ
  pub max_templates : ℕ
  pub containers : List Text
  pub parse_json : Text → Option Json
  pub decode : Buffer → Text
  pub sha256 : Buffer → Text
  pub is_docx : Buffer → Bool
  pub fill : Buffer → Fields → Option Buffer
  pub merge_documents : Buffer → List Fields → Option Buffer
  pub soffice : List Buffer → ℕ → SofficeRun
  pub load_pdf : Buffer → Option Pdf
  pub save_pdf : List ℕ → Option Buffer
  pub zip : List (Text × Buffer) → Buffer

abbrev pub with_file : Text → JobError → JobError
with_file file_name e = record {
  code = e.code;
  details = some (field "fileName" (text file_name) no_field);
}

abbrev pub first_error :
    List BatchDocument → List (Result JobError Buffer) → Result JobError (List Buffer)
first_error _ [] = ok []
first_error [] (_ ∷ _) = ok []
first_error (d ∷ documents) (err e ∷ pdfs) = err (with_file d.file_name e)
first_error (d ∷ documents) (ok pdf ∷ pdfs) = elim (first_error documents pdfs) [
  | err e ↦ err e
  | ok rest ↦ ok (pdf ∷ rest)
]

module _ (deps : WorkerDeps) where
  -- The first result is the merged document's.
  abbrev pub split_first : ℕ → List (Result JobError Buffer) → Option (List Buffer)
  split_first count [] = none
  split_first count (err e ∷ _) = none
  split_first count (ok pdf ∷ _) = split_pdf deps.load_pdf deps.save_pdf pdf count

  -- The whole batch in one conversion, where that works; `merge_documents` answers `none` also for
  -- what it throws.
  unfoldable pub convert_merged : Buffer → List BatchDocument → Option (List Buffer)
  unfolding split_pdf convert
  convert_merged template documents =
      if ltb (length documents) 2
      then none
      else elim (deps.merge_documents template (map (λ (d : BatchDocument). d.values) documents)) [
        | none ↦ none
        | some merged ↦
            split_first (length documents)
              (convert deps.soffice deps.timeout_ms (merged ∷ []) (length documents))
      ]

  -- `documents.map(renderDocx)`, which throws at the first that fails.
  unfoldable pub render_all : Buffer → List BatchDocument → Result JobError (List Buffer)
  unfolding render_docx
  render_all template [] = ok []
  render_all template (d ∷ documents) =
      elim (render_docx deps.is_docx deps.fill template d.values) [
        | err e ↦ err (with_file d.file_name e)
        | ok docx ↦ elim (render_all template documents) [
          | err e ↦ err e
          | ok rest ↦ ok (docx ∷ rest)
        ]
      ]

  abbrev pub solo : Buffer → JobError → Result JobError Buffer
  unfolding convert
  solo docx e = elim (convert deps.soffice deps.timeout_ms (docx ∷ []) 1) [
    | [] ↦ err e
    | pdf ∷ _ ↦ pdf
  ]

  -- A document that failed within the batch is converted once more, alone.
  abbrev pub retry_solo :
      List Buffer → List (Result JobError Buffer) → List (Result JobError Buffer)
  retry_solo (docx ∷ docs) (err e ∷ pdfs) = solo docx e ∷ retry_solo docs pdfs
  retry_solo (docx ∷ docs) (ok pdf ∷ pdfs) = ok pdf ∷ retry_solo docs pdfs
  retry_solo _ pdfs = pdfs

  unfoldable pub convert_each : Buffer → List BatchDocument → Result JobError (List Buffer)
  unfolding render_all convert
  convert_each template documents = elim (render_all template documents) [
    | err e ↦ err e
    | ok docx ↦
        first_error documents
          (retry_solo docx (convert deps.soffice deps.timeout_ms docx (length docx)))
  ]

  unfoldable pub pdfs_of : Buffer → List BatchDocument → Result JobError (List Buffer)
  unfolding convert_merged convert_each
  pdfs_of template documents = elim (convert_merged template documents) [
    | some pdfs ↦ ok pdfs
    | none ↦ convert_each template documents
  ]

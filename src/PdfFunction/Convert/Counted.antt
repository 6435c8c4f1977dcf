-- ===== src/PdfFunction/Convert/Counted.antt =====
-- How many PDFs the conversion of a batch gives.
use slomp.Prelude.{
  ℕ, suc, Option, none, some, List, [], ◌∷◌, map, length, nat_eq, list_eq, ltb, Result, ok, err,
  ◌≡◌, refl, sym, ap, ◌∙◌, ◌≤◌, Bool-cases, Option-cases, inl, inr, ◌⊎◌, arith, length-map,
}
use slomp.PdfFunction.Contract.{JobError, BatchDocument}
use slomp.PdfFunction.Storage.{Buffer}
use slomp.PdfFunction.Merge.{Pdf, all_saved, split_pages, split_pdf}
use slomp.PdfFunction.Merge.Split.{length-split_pages}
use slomp.PdfFunction.Render.{
  SofficeRun, killed, failed, finished, conversions, read_from, render_docx, convert,
}
use slomp.PdfFunction.Convert.{
  WorkerDeps, split_first, convert_merged, render_all, retry_solo, first_error, convert_each,
  pdfs_of,
}

Buffers-cases :
    (r : Result JobError (List Buffer))
    → ((a : List Buffer) × (r ≡ ok a)) ⊎ ((e : JobError) × (r ≡ err e))
Buffers-cases (ok a) = inl (a, refl)
Buffers-cases (err e) = inr (e, refl)

Buffer-cases :
    (r : Result JobError Buffer) → ((a : Buffer) × (r ≡ ok a)) ⊎ ((e : JobError) × (r ≡ err e))
Buffer-cases (ok a) = inl (a, refl)
Buffer-cases (err e) = inr (e, refl)

some_buffers : (a b : List Buffer) → some a ≡ some b → a ≡ b
some_buffers a b h = ground arith

length-all_saved :
    (saved : List (Option Buffer)) (pdfs : List Buffer)
    → all_saved saved ≡ some pdfs
    → length pdfs ≡ length saved
length-all_saved [] pdfs h = ap length (sym (some_buffers [] pdfs h))
length-all_saved (none ∷ saved) pdfs h = absurd (ground arith)
length-all_saved (some b ∷ saved) pdfs h = elim (Option-cases (all_saved saved)) [
  | inl e ↦ absurd (ground (arith, rw e at h))
  | inr (rest, e) ↦
      ap length (sym (some_buffers (b ∷ rest) pdfs (rw e at h)))
      ∙ ap suc (length-all_saved saved rest e)
]

length-split_pdf :
    (load : Buffer → Option Pdf) (save : List ℕ → Option Buffer) (merged : Buffer) (count : ℕ)
    (pdfs : List Buffer)
    → split_pdf load save merged count ≡ some pdfs
    → length pdfs ≡ count
unfolding split_pdf
length-split_pdf load save merged count pdfs h = elim (Option-cases (load merged)) [
  | inl e ↦ absurd (ground (arith, rw (e, split_pdf) at h))
  | inr (pdf, e) ↦
      let h' : elim (split_pages count pdf) [
        | none ↦ none
        | some parts ↦ all_saved (map save parts)
      ]
          ≡ some pdfs =
        rw (e, split_pdf) at h in
      elim (Option-cases (split_pages count pdf)) [
        | inl f ↦ absurd (ground (arith, rw f at h'))
        | inr (parts, f) ↦
            length-all_saved (map save parts) pdfs (rw f at h')
            ∙ length-map save parts
            ∙ length-split_pages count pdf parts f
      ]
]

length-read_from :
    (outputs : ℕ → Option Buffer) (i : ℕ) (docs : List Buffer)
    → length (read_from outputs i docs) ≡ length docs
unfolding read_from
length-read_from outputs i [] = refl
length-read_from outputs i (doc ∷ docs) = ap suc (length-read_from outputs (suc i) docs)

length-conversions :
    (run : SofficeRun) (docs : List Buffer) → length (conversions run docs) ≡ length docs
length-conversions killed docs = length-map _ docs
length-conversions failed docs = length-map _ docs
length-conversions (finished outputs) docs = length-read_from outputs 0 docs

length-first_error :
    (documents : List BatchDocument) (pdfs : List (Result JobError Buffer)) (out : List Buffer)
    → length pdfs ≡ length documents
    → first_error documents pdfs ≡ ok out
    → length documents ≤ length out
length-first_error [] pdfs out same h = omega arith
length-first_error (d ∷ documents) [] out same h = absurd (omega arith)
length-first_error (d ∷ documents) (err e ∷ pdfs) out same h = absurd (ground arith)
length-first_error (d ∷ documents) (ok pdf ∷ pdfs) out same h =
    elim (Buffers-cases (first_error documents pdfs)) [
      | inl (rest, e) ↦
          let f : ok (pdf ∷ rest) ≡ ok out = rw e at h in
          let g : length documents ≤ length rest =
            length-first_error documents pdfs rest (omega arith) e in
          ground arith
      | inr (x, e) ↦ absurd (ground (arith, rw e at h))
    ]

module _ (deps : WorkerDeps) where
  length-render_all :
      (template : Buffer) (documents : List BatchDocument) (out : List Buffer)
      → render_all deps template documents ≡ ok out
      → length out ≡ length documents
  unfolding render_all
  length-render_all template [] out h = let e : [] ≡ out = ground arith in ap length (sym e)
  length-render_all template (d ∷ documents) out h =
      elim (Buffer-cases (render_docx deps.is_docx deps.fill template d.values)) [
        | inr (x, e) ↦ absurd (ground (arith, rw (e, render_all) at h))
        | inl (docx, e) ↦ elim (Buffers-cases (render_all deps template documents)) [
          | inr (x, f) ↦ absurd (ground (arith, rw (e, f, render_all) at h))
          | inl (rest, f) ↦
              let g : ok (docx ∷ rest) ≡ ok out = rw (e, f, render_all) at h in
              let k : length rest ≡ length documents =
                length-render_all template documents rest f in
              ground arith
        ]
      ]

  length-retry_solo :
      (docs : List Buffer) (pdfs : List (Result JobError Buffer))
      → length (retry_solo deps docs pdfs) ≡ length pdfs
  length-retry_solo [] pdfs = refl
  length-retry_solo (docx ∷ docs) [] = refl
  length-retry_solo (docx ∷ docs) (err e ∷ pdfs) = ap suc (length-retry_solo docs pdfs)
  length-retry_solo (docx ∷ docs) (ok pdf ∷ pdfs) = ap suc (length-retry_solo docs pdfs)

  length-convert_each :
      (template : Buffer) (documents : List BatchDocument) (out : List Buffer)
      → convert_each deps template documents ≡ ok out
      → length documents ≤ length out
  unfolding convert convert_each
  length-convert_each template documents out h =
      elim (Buffers-cases (render_all deps template documents)) [
        | inr (x, e) ↦ absurd (ground (arith, rw (e, convert_each) at h))
        | inl (docx, e) ↦
            let pdfs : List (Result JobError Buffer) =
              retry_solo deps docx (convert deps.soffice deps.timeout_ms docx (length docx)) in
            let each : length pdfs ≡ length documents =
              length-retry_solo docx (convert deps.soffice deps.timeout_ms docx (length docx))
              ∙ length-conversions _ docx
              ∙ length-render_all template documents docx e in
            length-first_error documents pdfs out each (rw (e, convert_each) at h)
      ]

  length-split_first :
      (count : ℕ) (pdfs : List (Result JobError Buffer)) (out : List Buffer)
      → split_first deps count pdfs ≡ some out
      → length out ≡ count
  length-split_first count [] out h = absurd (ground arith)
  length-split_first count (err e ∷ pdfs) out h = absurd (ground arith)
  length-split_first count (ok pdf ∷ pdfs) out h =
      length-split_pdf deps.load_pdf deps.save_pdf pdf count out h

  length-convert_merged :
      (template : Buffer) (documents : List BatchDocument) (out : List Buffer)
      → convert_merged deps template documents ≡ some out
      → length out ≡ length documents
  unfolding convert_merged
  length-convert_merged template documents out h = elim (Bool-cases (ltb (length documents) 2)) [
    | inl few ↦ absurd (ground (arith, rw (few, convert_merged) at h))
    | inr many ↦
        elim (Option-cases
          (deps.merge_documents template (map (λ (d : BatchDocument). d.values) documents))) [
            | inl e ↦ absurd (ground (arith, rw (many, e, convert_merged) at h))
            | inr (merged, e) ↦
                length-split_first (length documents)
                  (convert deps.soffice deps.timeout_ms (merged ∷ []) (length documents)) out
                  (rw (many, e, convert_merged) at h)
          ]
  ]

  pub length-pdfs_of :
      (template : Buffer) (documents : List BatchDocument) (out : List Buffer)
      → pdfs_of deps template documents ≡ ok out
      → length documents ≤ length out
  unfolding pdfs_of
  length-pdfs_of template documents out h =
      elim (Option-cases (convert_merged deps template documents)) [
        | inl e ↦ length-convert_each template documents out (rw (e, pdfs_of) at h)
        | inr (pdfs, e) ↦
            let f : ok pdfs ≡ ok out = rw (e, pdfs_of) at h in
            let g : length pdfs ≡ length documents =
              length-convert_merged template documents pdfs e in
            ground arith
      ]

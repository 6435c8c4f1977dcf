-- ===== src/PdfFunction/Worker/Stored.antt =====
-- What is stored when a batch is reported done.
use slomp.Prelude.{
  ℕ, Option, none, some, List, length, get, nat_eq, list_eq, Result, ok, err, ◌≡◌, refl, sym, ap,
  ◌∙◌, subst, Bool-cases, inl, inr, arith,
}
use slomp.Prelude.Texts.{Text}
use slomp.PdfFunction.Contract.{
  Json, JobError, Thrown, BatchDocument, parse_batch_input, RenderBatchMessage,
}
use slomp.PdfFunction.Storage.{
  Buffer, Service, Io, ◌>>=◌, ◌>>◌, continue, return, or_throw, Fault-cases, next_fault, JobResult,
  batch_done, download, is_allowed,
}
use slomp.PdfFunction.Convert.{WorkerDeps, pdfs_of}
use slomp.PdfFunction.Convert.Counted.{length-pdfs_of}
use slomp.PdfFunction.Worker.{upload_all, render_batch, found_input, parsed_input}
use slomp.PdfFunction.Cache.{get_template}
use slomp.PdfFunction.Cache.Sound.{IsSound, download-cache, get_template-IsServed}
use slomp.PdfFunction.Contract.Paths.{batch_names}
use slomp.PdfFunction.Worker.Uploads.{AreStored, upload_all-UploadsAll}

abbrev same_result : JobResult → Result Thrown JobResult
same_result r = ok r

-- Where a computation gives a value in a state, the value and the state after it satisfy `P`.
record Ensures {A : Type 0} (P : Service → A → Type 0) (m : Io A) (s : Service) : Type 0 where
  ensures : (a : A) → (m s).1 ≡ ok a → P (m s).0 a

module _ {A B : Type 0} (P : Service → B → Type 0) where
  continue-Ensures :
      (f : A → Io B) (r : Service × Result Thrown A)
      → ((a : A) → r.1 ≡ ok a → Ensures P (f a) r.0)
      → (b : B) → (continue f r).1 ≡ ok b
      → P (continue f r).0 b
  continue-Ensures f (s, ok a) k b h = (k a refl).ensures b h
  continue-Ensures f (s, err e) k b h = absurd (ground arith)

  bind-Ensures :
      (m : Io A) (f : A → Io B) (s : Service)
      → ((a : A) → (m s).1 ≡ ok a → Ensures P (f a) (m s).0)
      → Ensures P (m >>= f) s
  bind-Ensures m f s k = record { ensures = λ b h. continue-Ensures f (m s) k b h }

or_throw-ok :
    {A : Type 0} (r : Result JobError A) (s : Service) (a : A) → (or_throw r s).1 ≡ ok a → r ≡ ok a
or_throw-ok (ok b) s a h = let e : b ≡ a = ground arith in ap ok e
or_throw-ok (err e) s a h = absurd (ground arith)

or_throw-state : {A : Type 0} (r : Result JobError A) (s : Service) → (or_throw r s).0 ≡ s
or_throw-state (ok a) s = refl
or_throw-state (err e) s = refl

found_input-ok :
    (path : Text) (o : Option Buffer) (s : Service) (raw : Buffer)
    → (found_input path o s).1 ≡ ok raw
    → o ≡ some raw
found_input-ok path none s raw h = absurd (ground arith)
found_input-ok path (some b) s raw h = let e : b ≡ raw = ground arith in ap some e

found_input-state : (path : Text) (o : Option Buffer) (s : Service) → (found_input path o s).0 ≡ s
found_input-state path none s = refl
found_input-state path (some b) s = refl

parsed_input-ok :
    (path : Text) (o : Option Json) (s : Service) (json : Json)
    → (parsed_input path o s).1 ≡ ok json
    → o ≡ some json
parsed_input-ok path none s json h = absurd (ground arith)
parsed_input-ok path (some j) s json h = let e : j ≡ json = ground arith in ap some e

parsed_input-state : (path : Text) (o : Option Json) (s : Service) → (parsed_input path o s).0 ≡ s
parsed_input-state path none s = refl
parsed_input-state path (some j) s = refl

download-ok :
    (containers : List Text) (path : Text) (s : Service) (found : Option Buffer)
    → (download containers path s).1 ≡ ok found
    → get s.blobs path ≡ found
unfolding download
download-ok containers path s found h = elim (Bool-cases (is_allowed containers path)) [
  | inr refused ↦ absurd (let e = rw refused at h in ground arith)
  | inl allowed ↦ elim (Fault-cases (next_fault s.faults)) [
    | inl e ↦ let f = rw (allowed, e) at h in ground arith
    | inr (inl e) ↦ absurd (let f = rw (allowed, e) at h in ground arith)
    | inr (inr e) ↦ absurd (let f = rw (allowed, e) at h in ground arith)
  ]
]

same_done : (a b : JobResult) → same_result a ≡ same_result b → a ≡ b
same_done a b h = ground (arith, h)

module _ (deps : WorkerDeps) (message : RenderBatchMessage) (attempt : ℕ) where
  -- The input blob of the batch was valid, its template has the hash of the message, as many
  -- documents are reported as the input has, and the PDFs that the conversion gave for them are
  -- what is stored at their paths.
  pub record IsDone (s t : Service) (r : JobResult) : Type 0 where
    pub raw : Buffer
    pub json : Json
    pub documents : List BatchDocument
    pub template_used : Buffer
    pub pdfs : List Buffer
    pub input : get s.blobs message.input_blob ≡ some raw
    pub parsed : deps.parse_json (deps.decode raw) ≡ some json
    pub read : parse_batch_input json ≡ ok documents
    pub genuine : deps.sha256 template_used ≡ message.template_ref.sha256
    pub converted : pdfs_of deps template_used documents ≡ ok pdfs
    pub reported : r ≡ batch_done message.job_id message.batch_index (length documents) attempt
    pub stored : AreStored t message.output_prefix documents pdfs

  -- What is known before the uploads.
  record IsConverted (s : Service) (raw : Buffer) (json : Json) (documents : List BatchDocument)
      (template : Buffer) (pdfs : List Buffer) : Type 0 where
    input : get s.blobs message.input_blob ≡ some raw
    parsed : deps.parse_json (deps.decode raw) ≡ some json
    read : parse_batch_input json ≡ ok documents
    genuine : deps.sha256 template ≡ message.template_ref.sha256
    converted : pdfs_of deps template documents ≡ ok pdfs

  reported-ok :
      (documents : List BatchDocument) (pdfs : List Buffer) (r : Service × Result Thrown (Unit {0}))
      (a : JobResult)
      → ((u : Unit {0}) → r.1 ≡ ok u → AreStored r.0 message.output_prefix documents pdfs)
      → let done = batch_done message.job_id message.batch_index (length documents) attempt in
        (continue (λ (_ : Unit {0}). return done) r).1 ≡ ok a
        → (a ≡ done)
          × AreStored
              (continue (λ (_ : Unit {0}). return done) r).0
              message.output_prefix
              documents
              pdfs
  reported-ok documents pdfs (t, err e) a stored h = absurd (ground arith)
  reported-ok documents pdfs (t, ok u) a stored h = (sym (same_done _ a h), stored u refl)

  uploaded-IsDone :
      (s t : Service) (raw : Buffer) (json : Json) (documents : List BatchDocument)
      (template : Buffer) (pdfs : List Buffer)
      → IsConverted s raw json documents template pdfs
      → Ensures
          (IsDone s)
          (do
            upload_all deps message.output_prefix documents pdfs
            return (batch_done message.job_id message.batch_index (length documents) attempt))
          t
  uploaded-IsDone s t raw json documents template pdfs known =
      let all =
        upload_all-UploadsAll deps message.output_prefix documents pdfs t
          (length-pdfs_of deps template documents pdfs known.converted)
          (batch_names json documents known.read) in
      record {
        ensures = λ a h.
            let (reported, stored) =
              reported-ok documents pdfs (upload_all deps message.output_prefix documents pdfs t) a
                all.own h in
            record {
              raw = raw;
              json = json;
              documents = documents;
              template_used = template;
              pdfs = pdfs;
              input = known.input;
              parsed = known.parsed;
              read = known.read;
              genuine = known.genuine;
              converted = known.converted;
              reported = reported;
              stored = stored;
            };
      }

  module _ (s : Service) (sound : IsSound deps.sha256 deps.max_templates s.cache) where
    -- The state in which the template is read.
    abbrev read_state : Option Buffer → Option Json → Result JobError (List BatchDocument) → Service
    read_state input json documents =
        (or_throw documents
          (parsed_input message.input_blob json
            (found_input message.input_blob input
              (download deps.containers message.input_blob s).0).0).0).0

    IsSound-read_state :
        (input : Option Buffer) (json : Option Json)
        (documents : Result JobError (List BatchDocument))
        → IsSound deps.sha256 deps.max_templates (read_state input json documents).cache
    IsSound-read_state input json documents =
        let loaded = (download deps.containers message.input_blob s).0 in
        let same : read_state input json documents ≡ loaded =
          or_throw-state documents _
          ∙ parsed_input-state message.input_blob json _
          ∙ found_input-state message.input_blob input loaded in
        subst (IsSound deps.sha256 deps.max_templates)
          (sym (
            ap (λ (t : Service). t.cache) same
            ∙ download-cache deps.sha256 deps.max_templates deps.containers message.input_blob s))
          sound

    -- While the cache holds at most `max_templates` templates, each under its own hash, a batch that
    -- is reported done had a valid input blob and a template of the hash that was asked for, as many
    -- documents are reported as the input has, and at the path of each of them the PDF is stored
    -- that the conversion of the documents with that template gave for it.
    pub render_batch-IsDone :
        (r : JobResult)
        → (render_batch deps message attempt s).1 ≡ ok r
        → IsDone s (render_batch deps message attempt s).0 r
    unfolding render_batch
    render_batch-IsDone =
        let P = IsDone s in
        let whole : Ensures P (render_batch deps message attempt) s =
          bind-Ensures P (download deps.containers message.input_blob) _ _ (λ input got.
            bind-Ensures P (found_input message.input_blob input) _ _ (λ raw found.
              let read_json = deps.parse_json (deps.decode raw) in
              bind-Ensures P (parsed_input message.input_blob read_json) _ _ (λ json parsed.
                bind-Ensures P (or_throw (parse_batch_input json)) _ _ (λ documents read.
                  bind-Ensures P
                    (get_template deps.sha256 deps.max_templates deps.containers
                      message.template_ref)
                    _ _
                    (λ template served.
                      bind-Ensures P (or_throw (pdfs_of deps template documents)) _ _ (λ pdfs made.
                        uploaded-IsDone s _ raw json documents template pdfs (record {
                          input =
                              download-ok deps.containers message.input_blob s input got
                              ∙ found_input-ok message.input_blob input _ raw found;
                          parsed = parsed_input-ok message.input_blob read_json _ json parsed;
                          read = or_throw-ok (parse_batch_input json) _ documents read;
                          genuine =
                              (get_template-IsServed deps.sha256 deps.max_templates deps.containers
                                  message.template_ref _
                                  (IsSound-read_state input read_json (parse_batch_input json))).1
                                template served;
                          converted = or_throw-ok (pdfs_of deps template documents) _ pdfs made;
                        }))))))) in
        whole.ensures

-- ===== src/PdfFunction/Worker/Queues.antt =====
-- The queues while a message is processed.
use slomp.Prelude.{
  ℕ, Option, none, some, List, [], ◌∷◌, ◌++◌, drop, ◌==◌, nat_eq, list_eq, length, Result, ok, err,
  ◌≡◌, refl, ◌∙◌, sym, subst, inl, inr, Bool-cases, arith, get,
}
use slomp.Prelude.Texts.{Text}
use slomp.Prelude.Sorting.{sort_with}
use slomp.PdfFunction.Contract.{
  Json, JobError, Thrown, job_error, other_error, WorkMessage, RenderBatchMessage,
  AssembleZipMessage, render_batch_message, assemble_zip_message, parse_batch_input, TemplateRef,
  BatchDocument,
}
use slomp.PdfFunction.Storage.{
  Fault-cases, Buffer, Service, Io, ◌>>=◌, continue, return, throw, call, next_fault, is_allowed,
  outside, check_path, download, upload_blob, open_read, present, list_blobs, paths_under, or_throw,
}
use slomp.PdfFunction.Cache.{get_template, fetch, checked, read_cache, put_cache}
use slomp.PdfFunction.Convert.{WorkerDeps, pdfs_of}
use slomp.PdfFunction.Worker.{
  keep_error, found_input, parsed_input, check_count, before, upload_all, render_batch,
  read_entries, assemble_archive, process,
}

-- The queues are as before, and where no further call was to fail, none is.
abbrev pub SameQueues : Service → Service → Type 0
SameQueues s t =
    (t.work ≡ s.work)
    × (t.results ≡ s.results)
    × (t.poison ≡ s.poison)
    × (s.faults ≡ [] → t.faults ≡ [])

pub record KeepsQueues {A : Type 0} (m : Io A) : Type 0 where
  pub keeps : (s : Service) → SameQueues s (m s).0

SameQueues-trans : (s t u : Service) → SameQueues s t → SameQueues t u → SameQueues s u
SameQueues-trans s t u (a, b, c, d) (e, f, g, h) =
    (e ∙ a, f ∙ b, g ∙ c, λ none_left. h (d none_left))

module _ {A B : Type 0} where
  continue-KeepsQueues :
      (f : A → Io B)
      → ((a : A) → KeepsQueues (f a))
      → (r : Service × Result Thrown A) → SameQueues r.0 (continue f r).0
  continue-KeepsQueues f k (s, ok a) = (k a).keeps s
  continue-KeepsQueues f k (s, err e) = (refl, refl, refl, λ h. h)

  bind-KeepsQueues :
      (m : Io A) (f : A → Io B)
      → KeepsQueues m
      → ((a : A) → KeepsQueues (f a))
      → KeepsQueues (m >>= f)
  bind-KeepsQueues m f h k = record {
    keeps = λ s.
        SameQueues-trans s (m s).0 ((m >>= f) s).0 (h.keeps s) (continue-KeepsQueues f k (m s));
  }

same : {A : Type 0} (a : A) → KeepsQueues (return a)
same a = record { keeps = λ s. (refl, refl, refl, λ h. h) }

thrown : (A : Type 0) (e : Thrown) → KeepsQueues (throw {A = A} e)
thrown A e = record { keeps = λ s. (refl, refl, refl, λ h. h) }

drop_none : {A : Type 0} (xs : List A) → xs ≡ [] → drop 1 xs ≡ []
drop_none [] h = refl
drop_none (x ∷ xs) h = ground arith

or_throw-KeepsQueues : {A : Type 0} (r : Result JobError A) → KeepsQueues (or_throw r)
or_throw-KeepsQueues (ok a) = same a
or_throw-KeepsQueues {A = A} (err e) = thrown A (job_error e)

-- A call that writes blobs at most.
call-KeepsQueues :
    {A : Type 0} (blobs_after : Service → List (Text × Buffer)) (reply : Service → A)
    → KeepsQueues (call (λ s. record s { blobs = blobs_after s }) reply)
call-KeepsQueues blobs_after reply = record {
  keeps = λ s. elim (Fault-cases (next_fault s.faults)) [
    | inl e ↦ rw e (refl, refl, refl, drop_none s.faults)
    | inr (inl e) ↦ rw e (refl, refl, refl, drop_none s.faults)
    | inr (inr e) ↦ rw e (refl, refl, refl, drop_none s.faults)
  ];
}

check_path-KeepsQueues :
    (containers : List Text) (path : Text) → KeepsQueues (check_path containers path)
check_path-KeepsQueues containers path = elim (Bool-cases (is_allowed containers path)) [
  | inl yes_allowed ↦ rw yes_allowed (same tt)
  | inr refused ↦ rw refused (thrown (Unit {0}) (job_error (outside path)))
]

module _ (containers : List Text) where
  download-KeepsQueues : (path : Text) → KeepsQueues (download containers path)
  unfolding download
  download-KeepsQueues path =
      bind-KeepsQueues (check_path containers path) _ (check_path-KeepsQueues containers path)
        (λ _. call-KeepsQueues (λ s. s.blobs) (λ s. get s.blobs path))

  upload_blob-KeepsQueues :
      (path : Text) (content : Buffer) → KeepsQueues (upload_blob containers path content)
  unfolding upload_blob
  upload_blob-KeepsQueues path content =
      bind-KeepsQueues (check_path containers path) _ (check_path-KeepsQueues containers path)
        (λ _. call-KeepsQueues _ _)

  present-KeepsQueues : (found : Option Buffer) → KeepsQueues (present found)
  present-KeepsQueues none = thrown Buffer other_error
  present-KeepsQueues (some content) = same content

  open_read-KeepsQueues : (path : Text) → KeepsQueues (open_read containers path)
  unfolding open_read
  open_read-KeepsQueues path =
      bind-KeepsQueues (check_path containers path) _ (check_path-KeepsQueues containers path) (λ _.
        bind-KeepsQueues (call (λ s. s) (λ s. get s.blobs path)) present
          (call-KeepsQueues (λ s. s.blobs) (λ s. get s.blobs path)) present-KeepsQueues)

  list_blobs-KeepsQueues : (prefix : Text) → KeepsQueues (list_blobs containers prefix)
  unfolding list_blobs
  list_blobs-KeepsQueues prefix =
      bind-KeepsQueues (check_path containers prefix) _ (check_path-KeepsQueues containers prefix)
        (λ _. call-KeepsQueues (λ s. s.blobs) (paths_under prefix))

  module _ (sha256 : Buffer → Text) (max_entries : ℕ) (ref : TemplateRef) where
    checked-KeepsQueues :
        (found : Option Buffer) → KeepsQueues (checked sha256 max_entries ref found)
    unfolding read_cache put_cache
    checked-KeepsQueues none = thrown Buffer _
    checked-KeepsQueues (some template) = elim (Bool-cases (sha256 template == ref.sha256)) [
      | inl right ↦ rw right (record { keeps = λ s. (refl, refl, refl, λ h. h) })
      | inr wrong ↦ rw wrong (record { keeps = λ s. (refl, refl, refl, λ h. h) })
    ]

    fetch-KeepsQueues :
        (cached : Option Buffer) → KeepsQueues (fetch sha256 max_entries containers ref cached)
    unfolding read_cache put_cache
    fetch-KeepsQueues (some cached) = record { keeps = λ s. (refl, refl, refl, λ h. h) }
    fetch-KeepsQueues none =
        bind-KeepsQueues (download containers ref.blob) _ (download-KeepsQueues ref.blob)
          checked-KeepsQueues

    get_template-KeepsQueues : KeepsQueues (get_template sha256 max_entries containers ref)
    unfolding get_template read_cache
    get_template-KeepsQueues = record {
      keeps = λ s. (fetch-KeepsQueues (get s.cache ref.sha256)).keeps s;
    }

keep_error-fst :
    (outcome : Result Thrown (Unit {0})) (r : Service × Result Thrown (Unit {0}))
    → (keep_error outcome r).0 ≡ r.0
keep_error-fst (ok a) r = refl
keep_error-fst (err e) r = refl

module _ (deps : WorkerDeps) where
  upload_all-KeepsQueues :
      (prefix : Text) (documents : List BatchDocument) (pdfs : List Buffer)
      → KeepsQueues (upload_all deps prefix documents pdfs)
  unfolding upload_all
  upload_all-KeepsQueues prefix (d ∷ documents) (pdf ∷ pdfs) = record {
    keeps = λ s.
        let step : Service × Result Thrown (Unit {0}) =
          upload_blob deps.containers (prefix ++ d.file_name) pdf s in
        let first : SameQueues s step.0 =
          (upload_blob-KeepsQueues deps.containers (prefix ++ d.file_name) pdf).keeps s in
        let rest : SameQueues step.0 (upload_all deps prefix documents pdfs step.0).0 =
          (upload_all-KeepsQueues prefix documents pdfs).keeps step.0 in
        subst (SameQueues s)
          (sym (keep_error-fst step.1 (upload_all deps prefix documents pdfs step.0)))
          (SameQueues-trans s step.0 (upload_all deps prefix documents pdfs step.0).0 first rest);
  }
  upload_all-KeepsQueues prefix [] pdfs = same tt
  upload_all-KeepsQueues prefix (d ∷ documents) [] = same tt

  found_input-KeepsQueues :
      (path : Text) (found : Option Buffer) → KeepsQueues (found_input path found)
  found_input-KeepsQueues path none = record { keeps = λ s. (refl, refl, refl, λ h. h) }
  found_input-KeepsQueues path (some raw) = same raw

  parsed_input-KeepsQueues :
      (path : Text) (json : Option Json) → KeepsQueues (parsed_input path json)
  parsed_input-KeepsQueues path none = record { keeps = λ s. (refl, refl, refl, λ h. h) }
  parsed_input-KeepsQueues path (some json) = same json

  render_batch-KeepsQueues :
      (message : RenderBatchMessage) (attempt : ℕ) → KeepsQueues (render_batch deps message attempt)
  unfolding render_batch
  render_batch-KeepsQueues message attempt =
      bind-KeepsQueues (download deps.containers message.input_blob) _
        (download-KeepsQueues deps.containers message.input_blob)
        (λ input.
          bind-KeepsQueues (found_input message.input_blob input) _
            (found_input-KeepsQueues message.input_blob input)
            (λ raw.
              bind-KeepsQueues (parsed_input message.input_blob (deps.parse_json (deps.decode raw)))
                _ (parsed_input-KeepsQueues message.input_blob _)
                (λ json.
                  bind-KeepsQueues (or_throw (parse_batch_input json)) _ (or_throw-KeepsQueues _)
                    (λ documents.
                      bind-KeepsQueues
                        (get_template deps.sha256 deps.max_templates deps.containers
                          message.template_ref)
                        _
                        (get_template-KeepsQueues deps.containers deps.sha256 deps.max_templates
                          message.template_ref)
                        (λ template.
                          bind-KeepsQueues (or_throw (pdfs_of deps template documents)) _
                            (or_throw-KeepsQueues _)
                            (λ pdfs.
                              bind-KeepsQueues
                                (upload_all deps message.output_prefix documents pdfs) _
                                (upload_all-KeepsQueues message.output_prefix documents pdfs)
                                (λ _. same _)))))))

  read_entries-KeepsQueues :
      (prefix : Text) (paths : List Text) → KeepsQueues (read_entries deps prefix paths)
  unfolding read_entries
  read_entries-KeepsQueues prefix [] = same []
  read_entries-KeepsQueues prefix (path ∷ paths) =
      bind-KeepsQueues (open_read deps.containers path) _
        (open_read-KeepsQueues deps.containers path)
        (λ content.
          bind-KeepsQueues (read_entries deps prefix paths) _
            (read_entries-KeepsQueues prefix paths) (λ rest. same _))

  check_count-KeepsQueues : (expected found : ℕ) → KeepsQueues (check_count expected found)
  check_count-KeepsQueues expected found = elim (Bool-cases (expected == found)) [
    | inl equal ↦ rw equal (record { keeps = λ s. (refl, refl, refl, λ h. h) })
    | inr unequal ↦ rw unequal (record { keeps = λ s. (refl, refl, refl, λ h. h) })
  ]

  assemble_archive-KeepsQueues :
      (message : AssembleZipMessage) → KeepsQueues (assemble_archive deps message)
  unfolding assemble_archive
  assemble_archive-KeepsQueues message =
      bind-KeepsQueues (list_blobs deps.containers message.source_prefix) _
        (list_blobs-KeepsQueues deps.containers message.source_prefix)
        (λ listed.
          bind-KeepsQueues (check_count message.expected_files (length (sort_with before listed))) _
            (check_count-KeepsQueues _ _)
            (λ _.
              bind-KeepsQueues (read_entries deps message.source_prefix (sort_with before listed)) _
                (read_entries-KeepsQueues message.source_prefix (sort_with before listed))
                (λ entries.
                  bind-KeepsQueues (upload_blob deps.containers message.zip_blob (deps.zip entries))
                    _ (upload_blob-KeepsQueues deps.containers message.zip_blob (deps.zip entries))
                    (λ _. same _))))

  pub process-KeepsQueues :
      (message : WorkMessage) (attempt : ℕ) → KeepsQueues (process deps message attempt)
  unfolding process
  process-KeepsQueues (render_batch_message m) attempt = render_batch-KeepsQueues m attempt
  process-KeepsQueues (assemble_zip_message m) attempt = assemble_archive-KeepsQueues m

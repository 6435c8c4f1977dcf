-- ===== src/PdfFunction/Worker/Uploads.antt =====
-- What the uploads of a batch leave in the storage.
use slomp.Prelude.{
  some, List, [], ◌∷◌, ◌++◌, length, get, set, get-set, get-set_self, ◌==◌, nat_eq, list_eq, Result,
  ok, err, ◌≡◌, ◌≢◌, refl, sym, ◌∙◌, ◌≤◌, All, All-mono, Pairwise, Bool-cases, inl, inr, arith,
}
use slomp.Prelude.Texts.{Text}
use slomp.PdfFunction.Contract.{Thrown, BatchDocument}
use slomp.PdfFunction.Storage.{Buffer, Service, Fault-cases, next_fault, is_allowed, upload_blob}
use slomp.PdfFunction.Convert.{WorkerDeps}
use slomp.PdfFunction.Worker.{keep_error, upload_all}
use slomp.PdfFunction.Contract.Paths.{append_cancel}

-- The PDF of each document is what is stored at its path.
abbrev pub AreStored : Service → Text → List BatchDocument → List Buffer → Type 0
AreStored s prefix [] pdfs = Unit
AreStored s prefix (d ∷ documents) [] = ⊥
AreStored s prefix (d ∷ documents) (pdf ∷ pdfs) =
    (get s.blobs (prefix ++ d.file_name) ≡ some pdf) × AreStored s prefix documents pdfs

get-set_other :
    (m : List (Text × Buffer)) (k j : Text) (v : Buffer) → k ≢ j → get (set m k v) j ≡ get m j
get-set_other m k j v apart = elim (Bool-cases (k == j)) [
  | inl same ↦ absurd (apart ((list_eq.equals_iff k j).0 same))
  | inr other ↦ rw (get-set m k j v, other) refl
]

-- What an upload leaves: the other blobs as they were, and its own where it succeeds.
record Uploads (path : Text) (content : Buffer) (s : Service)
    (r : Service × Result Thrown (Unit {0})) : Type 0 where
  others : (p : Text) → path ≢ p → get r.0.blobs p ≡ get s.blobs p
  own : (u : Unit {0}) → r.1 ≡ ok u → get r.0.blobs path ≡ some content

upload_blob-Uploads :
    (containers : List Text) (path : Text) (content : Buffer) (s : Service)
    → Uploads path content s (upload_blob containers path content s)
unfolding upload_blob
upload_blob-Uploads containers path content s = elim (Bool-cases (is_allowed containers path)) [
  | inr refused ↦
      rw refused (record { others = λ p apart. refl; own = λ u e. absurd (ground arith) })
  | inl allowed ↦ rw allowed (elim (Fault-cases (next_fault s.faults)) [
    | inl e ↦ rw e (record {
      others = λ p apart. get-set_other s.blobs path p content apart;
      own = λ u f. get-set_self s.blobs path content;
    })
    | inr (inl e) ↦ rw e (record { others = λ p apart. refl; own = λ u f. absurd (ground arith) })
    | inr (inr e) ↦ rw e (record {
      others = λ p apart. get-set_other s.blobs path p content apart;
      own = λ u f. absurd (ground arith);
    })
  ])
]

abbrev path_of : Text → BatchDocument → Text
path_of prefix d = prefix ++ d.file_name

-- What the uploads of a batch leave.
pub record UploadsAll (prefix : Text) (documents : List BatchDocument) (pdfs : List Buffer)
    (s : Service) (r : Service × Result Thrown (Unit {0})) : Type 0 where
  pub others :
      (p : Text) → All (λ d. path_of prefix d ≢ p) documents → get r.0.blobs p ≡ get s.blobs p
  pub own : (u : Unit {0}) → r.1 ≡ ok u → AreStored r.0 prefix documents pdfs

-- The upload of one PDF, and of the others after it.
keep_error-UploadsAll :
    (prefix : Text) (d : BatchDocument) (documents : List BatchDocument) (pdf : Buffer)
    (pdfs : List Buffer) (s : Service) (first rest : Service × Result Thrown (Unit {0}))
    → All (λ b. path_of prefix b ≢ path_of prefix d) documents
    → Uploads (path_of prefix d) pdf s first
    → UploadsAll prefix documents pdfs first.0 rest
    → UploadsAll prefix (d ∷ documents) (pdf ∷ pdfs) s (keep_error first.1 rest)
keep_error-UploadsAll prefix d documents pdf pdfs s (t, ok v) rest apart one all = record {
  others = λ p hs. all.others p hs.1 ∙ one.others p hs.0;
  own = λ u e. (all.others (path_of prefix d) apart ∙ one.own v refl, all.own u e);
}
keep_error-UploadsAll prefix d documents pdf pdfs s (t, err x) (v, r) apart one all = record {
  others = λ p hs. all.others p hs.1 ∙ one.others p hs.0;
  own = λ u e. absurd (ground arith);
}

pub upload_all-UploadsAll :
    (deps : WorkerDeps) (prefix : Text) (documents : List BatchDocument) (pdfs : List Buffer)
    (s : Service)
    → length documents ≤ length pdfs
    → Pairwise (λ (a b : BatchDocument). a.file_name ≢ b.file_name) documents
    → UploadsAll prefix documents pdfs s (upload_all deps prefix documents pdfs s)
unfolding upload_all
upload_all-UploadsAll deps prefix [] pdfs s enough apart = record {
  others = λ p hs. refl;
  own = λ u e. tt;
}
upload_all-UploadsAll deps prefix (d ∷ documents) [] s enough apart = absurd (omega arith)
upload_all-UploadsAll deps prefix (d ∷ documents) (pdf ∷ pdfs) s enough (a, apart) =
    let first = upload_blob deps.containers (path_of prefix d) pdf s in
    keep_error-UploadsAll prefix d documents pdf pdfs s first
      (upload_all deps prefix documents pdfs first.0)
      (All-mono (λ (b : BatchDocument). d.file_name ≢ b.file_name)
        (λ (b : BatchDocument). path_of prefix b ≢ path_of prefix d) documents
        (λ b other same. other (sym (append_cancel prefix b.file_name d.file_name same))) a)
      (upload_blob-Uploads deps.containers (path_of prefix d) pdf s)
      (upload_all-UploadsAll deps prefix documents pdfs first.0 (omega arith) apart)

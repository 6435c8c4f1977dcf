-- ===== src/Templates/Versions.antt =====
-- apps/backend/src/templates/templates.service.ts: the versions of templates. A transaction is one
-- step, since it holds the lock of its municipality; what ends otherwise is an argument: whether the
-- blob is uploaded and whether the transaction commits. The blob of a version is named by its
-- municipality, type and version.
pub mod Consistent
pub mod Cleanup
use slomp.Prelude.{
  ℕ, ◌+◌, ◌≡◌, Bool, true, false, ◌&&◌, not, Option, none, some, List, [], ◌∷◌, ◌++◌, map, max,
  if◌then◌else◌, ◌==◌, nat_eq, pair_eq, Eq, ltb, filter, find, add, Result, ok, err, ◌↔◌, arith,
}
use slomp.Prelude.Texts.{Text}
use slomp.Database.{update_where}
use slomp.PdfJobs.Rules.{PdfDocumentType, liquidacion, mandamiento}

abbrev pub type_beq : PdfDocumentType → PdfDocumentType → Bool
type_beq liquidacion liquidacion = true
type_beq mandamiento mandamiento = true
type_beq _ _ = false

pub type_beq_iff : (a b : PdfDocumentType) → (type_beq a b ≡ true) ↔ (a ≡ b)
type_beq_iff liquidacion b = ground arith
type_beq_iff mandamiento b = ground arith

instance abbrev pub type_eq : Eq PdfDocumentType
type_eq = record { equals = type_beq; equals_iff = type_beq_iff }

-- A municipality and a type of document.
abbrev pub Kind : Type 0
Kind = ℕ × PdfDocumentType

abbrev pub BlobPath : Type 0
BlobPath = Kind × ℕ

pub record Template : Type 0 where
  pub id : ℕ
  pub kind : Kind
  pub version : ℕ
  pub blob_path : BlobPath
  pub sha256 : ℕ
  pub file_name : Text
  pub fields : List Text
  pub is_active : Bool
  pub uploaded_by : ℕ

pub record World : Type 0 where
  pub templates : List Template
  pub next_id : ℕ
  pub blobs : List BlobPath

pub record TemplateFile : Type 0 where
  pub sha256 : ℕ
  pub name : Text
  pub fields : List Text

pub data TemplateError : Type 0 where
  template_replace_not_confirmed pdf_storage_unavailable transaction_failed : TemplateError
  template_not_found : TemplateError

-- The highest version of the kind, 0 without one.
pub last_version : Kind → List Template → ℕ
last_version kind [] = 0
last_version kind (t ∷ templates) =
    let last = last_version kind templates in if t.kind == kind then max t.version last else last

abbrev pub is_active_of : Kind → Template → Bool
is_active_of kind t = t.kind == kind && t.is_active

abbrev pub deactivate : Kind → List Template → List Template
deactivate kind = update_where (is_active_of kind) (λ t. record t { is_active = false })

abbrev pub new_template : Kind → TemplateFile → ℕ → World → Template
new_template kind file uploaded_by w =
    let version = last_version kind w.templates + 1 in
    record {
      id = w.next_id;
      kind = kind;
      version = version;
      blob_path = (kind, version);
      sha256 = file.sha256;
      file_name = file.name;
      fields = file.fields;
      is_active = true;
      uploaded_by = uploaded_by;
    }

-- How the transaction of storeVersion ends, and the blob that is left to clean up where it fails after
-- the upload.
pub data Outcome : Type 0 where
  stored : (template : Template) → Outcome
  not_uploaded : Outcome
  rolled_back : (uploaded_path : BlobPath) → Outcome

unfoldable pub publish :
    Kind → TemplateFile → ℕ → (uploads commits : Bool) → World → World × Outcome
unfolding last_version
publish kind file uploaded_by uploads commits w =
    let created = new_template kind file uploaded_by w in
    let w' : World = record w { blobs = add w.blobs created.blob_path } in
    if not uploads
    then (w, not_uploaded)
    else if not commits
    then (w', rolled_back created.blob_path)
    else (
      record w' {
        templates = deactivate kind w.templates ++ created ∷ [];
        next_id = w.next_id + 1;
      },
      stored created,
    )

-- `storage.deletePrefix(uploadedPath)`, of which a failure is ignored.
abbrev pub clean_up : BlobPath → Bool → World → World
clean_up path deletes w =
    if deletes then record w { blobs = filter (λ b. not (b == path)) w.blobs } else w

-- What storeVersion answers from its first read, or that the transaction has to run.
pub data Decision : Type 0 where
  same_file : (active : Template) → Decision
  not_confirmed : Decision
  goes_on : Decision

pub decide : Kind → TemplateFile → Bool → World → Decision
decide kind file replace_confirmed read = elim (find (is_active_of kind) read.templates) [
  | none ↦ goes_on
  | some active ↦
      if active.sha256 == file.sha256
      then same_file active
      else if not replace_confirmed
      then not_confirmed
      else goes_on
]

-- The clean-up runs at once here; Cleanup looks at other requests that run before it.
abbrev pub conclude : Bool → World × Outcome → World × Result TemplateError Template
conclude deletes (w, stored template) = (w, ok template)
conclude deletes (w, not_uploaded) = (w, err pdf_storage_unavailable)
conclude deletes (w, rolled_back path) = (clean_up path deletes w, err transaction_failed)

abbrev pub after_decision :
    Decision
    → Kind
    → TemplateFile
    → ℕ
    → (uploads commits deletes : Bool) → World
    → World × Result TemplateError Template
after_decision (same_file active) kind file uploaded_by uploads commits deletes w = (w, ok active)
after_decision not_confirmed kind file uploaded_by uploads commits deletes w =
    (w, err template_replace_not_confirmed)
after_decision goes_on kind file uploaded_by uploads commits deletes w =
    conclude deletes (publish kind file uploaded_by uploads commits w)

-- storeVersion: the active version is read in the state `read`, and the transaction runs in a later one.
pub store_version :
    Kind
    → TemplateFile
    → ℕ
    → Bool
    → (uploads commits deletes : Bool) → (read w : World) → World × Result TemplateError Template
unfolding decide publish
store_version kind file uploaded_by replace_confirmed uploads commits deletes read w =
    after_decision (decide kind file replace_confirmed read) kind file uploaded_by uploads commits
      deletes w

abbrev pub is_own : ℕ → ℕ → Template → Bool
is_own municipality_id id t = t.id == id && t.kind.0 == municipality_id

abbrev pub activate_row : Template → List Template → List Template
activate_row target templates =
    update_where (λ t. t.id == target.id) (λ t. record t { is_active = true })
      (deactivate target.kind templates)

unfoldable pub activate : ℕ → ℕ → World → World × Result TemplateError Template
activate municipality_id id w = elim (find (is_own municipality_id id) w.templates) [
  | none ↦ (w, err template_not_found)
  | some target ↦ if target.is_active then (w, ok target) else (
    record w { templates = activate_row target w.templates },
    ok (record target { is_active = true }),
  )
]

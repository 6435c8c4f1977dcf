-- ===== src/PdfFunction/Contract.antt =====
-- apps/pdf-function/src/contract.ts and errors.ts: the validators of what comes from the backend.
-- The text of an error's message is left out; `InvalidShape` keeps the key that it names.
pub mod Paths
use slomp.Prelude.{
  ℕ, zero, suc, Bool, true, false, ◌&&◌, ◌||◌, not, Option, none, some, List, [], ◌∷◌, ◌++◌,
  if◌then◌else◌, ◌==◌, nat_eq, list_eq, string_eq, codes, String, leb, length, any, all, includes,
  add, is_none, is_some, ℤ, pos, negsuc, Result, ok, err, ◌>>=◌, ◌>>◌, throw_if, or_throw,
}
use slomp.Prelude.Texts.{Text, trim, starts_with, reversed}
use slomp.PdfJobs.Rules.{PdfDocumentType, liquidacion, mandamiento}

-- What `JSON.parse` returns. `fraction` is a number that is no integer.
mutual
  pub data Json : Type 0 where
    null : Json
    boolean : Bool → Json
    integer : ℤ → Json
    fraction : Json
    text : Text → Json
    array : Items → Json
    object : Fields → Json

  pub data Items : Type 0 where
    no_item : Items
    item : Json → Items → Items

  pub data Fields : Type 0 where
    no_field : Fields
    field : String → Json → Fields → Fields

abbrev pub value_at : Fields → String → Option Json
value_at no_field key = none
value_at (field name value rest) key = if name == key then some value else value_at rest key

pub data JobErrorCode : Type 0 where
  invalid_message pdf_template_unavailable pdf_template_invalid template_render_failed
        pdf_conversion_timeout pdf_conversion_failed pdf_storage_unavailable bulk_zip_incomplete :
      JobErrorCode

pub record JobError : Type 0 where
  pub code : JobErrorCode
  pub details : Option Fields

-- An exception: a `JobError`, or whatever else is thrown.
pub data Thrown : Type 0 where
  job_error : JobError → Thrown
  other_error : Thrown

unfoldable pub permanent : JobError → Bool
permanent e = elim e.code [
  | invalid_message ↦ true
  | pdf_template_unavailable ↦ true
  | pdf_template_invalid ↦ true
  | template_render_failed ↦ true
  | bulk_zip_incomplete ↦ true
  | pdf_conversion_timeout ↦ false
  | pdf_conversion_failed ↦ false
  | pdf_storage_unavailable ↦ false
]

pub data InvalidShape : Type 0 where
  not_an_object unknown_type bad_version no_documents bad_hash : InvalidShape
  blank_text bad_integer unsafe_path bad_prefix bad_document_type bad_object bad_extension :
      (key : String) → InvalidShape
  duplicate_name : (name : Text) → InvalidShape

abbrev pub is_object : Json → Option Fields
is_object (object fields) = some fields
is_object _ = none

abbrev pub text_of : Option Json → Option Text
text_of (some (text t)) = some t
text_of _ = none

abbrev pub is_blank : Text → Bool
is_blank t = trim t == []

unfoldable pub str : Fields → String → Result InvalidShape Text
str obj key = do
  value ← or_throw (text_of (value_at obj key)) (blank_text key)
  throw_if (is_blank value) (blank_text key)
  ok value

abbrev pub natural_of : Option Json → Option ℕ
natural_of (some (integer (pos n))) = some n
natural_of _ = none

-- `least` is 0 or 1, so that a negative integer is below it.
unfoldable pub int : Fields → String → ℕ → Result InvalidShape ℕ
int obj key least = do
  value ← or_throw (natural_of (value_at obj key)) (bad_integer key)
  throw_if (not (leb least value)) (bad_integer key)
  ok value

abbrev pub slash : ℕ
slash = 47

abbrev pub backslash : ℕ
backslash = 92

-- `t.split(c)`: one part more than `t` has separators.
abbrev pub split_from : ℕ → Text → Text → List Text
split_from c [] part = reversed part [] ∷ []
split_from c (x ∷ t) part =
    if x == c then reversed part [] ∷ split_from c t [] else split_from c t (x ∷ part)

abbrev pub split : ℕ → Text → List Text
split c t = split_from c t []

abbrev pub is_dots : Text → Bool
is_dots part = part == codes ".." || part == codes "."

abbrev pub is_unsafe : Text → Bool
is_unsafe t = starts_with t (slash ∷ []) || includes t backslash || any is_dots (split slash t)

unfoldable pub safe_path : Fields → String → Result InvalidShape Text
unfolding str
safe_path obj key = do value ← str obj key; throw_if (is_unsafe value) (unsafe_path key); ok value

abbrev pub ends_with : Text → Text → Bool
ends_with t suffix = starts_with (reversed t []) (reversed suffix [])

unfoldable pub prefix : Fields → String → Result InvalidShape Text
unfolding safe_path
prefix obj key = do
  value ← safe_path obj key
  throw_if (not (ends_with value (slash ∷ []))) (bad_prefix key)
  ok value

unfoldable pub document_type_of : Fields → Result InvalidShape PdfDocumentType
document_type_of obj = do
  value ← or_throw (text_of (value_at obj "documentType")) (bad_document_type "documentType")
  if value == codes "LIQUIDACION"
      then ok liquidacion
      else if value == codes "MANDAMIENTO"
      then ok mandamiento
      else err (bad_document_type "documentType")

pub record TemplateRef : Type 0 where
  pub blob : Text
  pub sha256 : Text

abbrev pub is_hex : ℕ → Bool
is_hex c = (leb 48 c && leb c 57) || (leb 97 c && leb c 102)

abbrev pub is_hash : Text → Bool
is_hash t = length t == 64 && all is_hex t

abbrev pub object_of : Option Json → Option Fields
object_of (some (object fields)) = some fields
object_of _ = none

unfoldable pub template : Fields → Result InvalidShape TemplateRef
unfolding str safe_path
template obj = do
  value ← or_throw (object_of (value_at obj "template")) (bad_object "template")
  sha256 ← str value "sha256"
  throw_if (not (is_hash sha256)) bad_hash
  blob ← safe_path value "blob"
  ok (record { blob = blob; sha256 = sha256 })

abbrev pub data_of : Fields → Result InvalidShape Fields
data_of obj = or_throw (object_of (value_at obj "data")) (bad_object "data")

abbrev pub is_one : Option Json → Bool
is_one v = elim (natural_of v) [ none ↦ false | some n ↦ n == 1 ]

abbrev pub check_schema_version : Fields → Result InvalidShape (Unit {0})
check_schema_version obj = throw_if (not (is_one (value_at obj "schemaVersion"))) bad_version

-- Every `InvalidShape` is thrown on as the same code.
abbrev pub guard : {A : Type 0} → Result InvalidShape A → Result JobError A
guard (ok a) = ok a
guard (err e) = err (record { code = invalid_message; details = none })

pub record RenderBatchMessage : Type 0 where
  pub job_id : Text
  pub municipality_id : ℕ
  pub kind : PdfDocumentType
  pub batch_index : ℕ
  pub input_blob : Text
  pub template_ref : TemplateRef
  pub output_prefix : Text

pub record AssembleZipMessage : Type 0 where
  pub job_id : Text
  pub source_prefix : Text
  pub zip_blob : Text
  pub expected_files : ℕ

pub data WorkMessage : Type 0 where
  render_batch_message : RenderBatchMessage → WorkMessage
  assemble_zip_message : AssembleZipMessage → WorkMessage

unfoldable pub parse_render_batch : Fields → Result InvalidShape WorkMessage
unfolding str int safe_path prefix document_type_of template
parse_render_batch raw = do
  job_id ← str raw "jobId"
  municipality_id ← int raw "municipalityId" 1
  kind ← document_type_of raw
  batch_index ← int raw "batchIndex" 0
  input_blob ← safe_path raw "inputBlob"
  template_ref ← template raw
  output_prefix ← prefix raw "outputPrefix"
  ok (
      render_batch_message (record {
        job_id = job_id;
        municipality_id = municipality_id;
        kind = kind;
        batch_index = batch_index;
        input_blob = input_blob;
        template_ref = template_ref;
        output_prefix = output_prefix;
      }))

unfoldable pub parse_assemble_zip : Fields → Result InvalidShape WorkMessage
unfolding str int safe_path prefix
parse_assemble_zip raw = do
  job_id ← str raw "jobId"
  source_prefix ← prefix raw "sourcePrefix"
  zip_blob ← safe_path raw "zipBlob"
  expected_files ← int raw "expectedFiles" 1
  ok (
      assemble_zip_message (record {
        job_id = job_id;
        source_prefix = source_prefix;
        zip_blob = zip_blob;
        expected_files = expected_files;
      }))

unfoldable pub parse_work_message : Json → Result JobError WorkMessage
unfolding parse_render_batch parse_assemble_zip
parse_work_message raw = guard (do
  obj ← or_throw (is_object raw) not_an_object
  check_schema_version obj
  kind ← or_throw (text_of (value_at obj "type")) unknown_type
  if kind == codes "render-batch"
      then parse_render_batch obj
      else if kind == codes "assemble-zip"
      then parse_assemble_zip obj
      else err unknown_type)

pub record BatchDocument : Type 0 where
  pub file_name : Text
  pub values : Fields

unfoldable pub parse_documents : Items → List Text → Result InvalidShape (List BatchDocument)
unfolding safe_path
parse_documents no_item names = ok []
parse_documents (item doc rest) names = do
  obj ← or_throw (is_object doc) (bad_object "document")
  file_name ← safe_path obj "fileName"
  throw_if (not (ends_with file_name (codes ".pdf"))) (bad_extension "fileName")
  throw_if (includes names file_name) (duplicate_name file_name)
  values ← data_of obj
  documents ← parse_documents rest (add names file_name)
  ok ((record { file_name = file_name; values = values }) ∷ documents)

abbrev pub documents_of : Json → Option Items
documents_of (object fields) = elim (value_at fields "documents") [
  | some (array (item doc rest)) ↦ some (item doc rest)
  | _ ↦ none
]
documents_of _ = none

unfoldable pub parse_batch_input : Json → Result JobError (List BatchDocument)
unfolding parse_documents
parse_batch_input raw =
    guard (do items ← or_throw (documents_of raw) no_documents; parse_documents items [])

pub record RenderRequest : Type 0 where
  pub kind : PdfDocumentType
  pub template_ref : TemplateRef
  pub values : Fields

unfoldable pub parse_render_request : Json → Result JobError RenderRequest
unfolding document_type_of template
parse_render_request raw = guard (do
  obj ← or_throw (is_object raw) not_an_object
  check_schema_version obj
  kind ← document_type_of obj
  template_ref ← template obj
  values ← data_of obj
  ok (record { kind = kind; template_ref = template_ref; values = values }))

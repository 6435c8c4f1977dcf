-- ===== src/PdfFunction/Contract/Paths.antt =====
-- The paths at which a batch writes its PDFs.
use slomp.Prelude.{
  ℕ, Bool, true, false, ◌||◌, not, List, [], ◌∷◌, ◌++◌, map, ◌==◌, nat_eq, list_eq, string_eq,
  codes, String, any, includes, add, Result, ok, err, ◌>>=◌, throw_if, or_throw, ◌≡◌, ◌≢◌, refl,
  sym, ap, ◌∙◌, subst, arith, All, Pairwise, Bool-cases, inl, inr, includes-append, includes-add,
  Eq, All-mono, All-map, Pairwise-map, drop,
}
use mathlib.Core.List.{append_assoc}
use slomp.Prelude.Texts.{Text, starts_with, reversed}
use slomp.PdfFunction.Contract.{
  Json, Items, no_item, item, Fields, slash, backslash, split_from, split, is_dots, is_unsafe,
  ends_with, InvalidShape, unsafe_path, bad_prefix, str, int, safe_path, prefix, document_type_of,
  template, guard, WorkMessage, render_batch_message, assemble_zip_message, RenderBatchMessage,
  parse_render_batch, parse_assemble_zip, parse_work_message, BatchDocument, parse_documents,
  parse_batch_input, is_object, documents_of, data_of, value_at, text_of, check_schema_version,
}

-- What a call returns, where it throws nothing, satisfies `P`.
record Yields {A E : Type 0} (P : A → Type 0) (r : Result E A) : Type 0 where
  yields : (a : A) → r ≡ ok a → P a

module _ {A E : Type 0} (P : A → Type 0) where
  ok-Yields : (a : A) → P a → Yields {E = E} P (ok a)
  ok-Yields a p = record { yields = λ b h. let e : a ≡ b = ground arith in subst P e p }

  err-Yields : (e : E) → Yields P (err e)
  err-Yields e = record { yields = λ b h. absurd (ground arith) }

  bind-Yields :
      {B : Type 0} (m : Result E B) (f : B → Result E A)
      → ((b : B) → m ≡ ok b → Yields P (f b))
      → Yields P (m >>= f)
  bind-Yields (ok b) f k = k b refl
  bind-Yields (err e) f k = err-Yields e

-- A text that `safePath` lets through.
abbrev pub IsSafe : Text → Type 0
IsSafe t = is_unsafe t ≡ false

dots_from :
    (q f part : Text)
    → any is_dots (split_from slash (q ++ slash ∷ f) part)
      ≡ (any is_dots (split_from slash q part) || any is_dots (split_from slash f []))
dots_from [] f part = ground arith
dots_from (x ∷ q) f part = elim (Bool-cases (x == slash)) [
  | inl cut ↦ rw cut (ground (arith, dots_from q f []))
  | inr joins ↦ rw joins (dots_from q f (x ∷ part))
]

append-IsSafe : (q f : Text) → IsSafe (q ++ slash ∷ []) → IsSafe f → IsSafe (q ++ slash ∷ f)
append-IsSafe [] f safe_prefix safe_file = absurd (ground arith)
append-IsSafe (c ∷ q) f safe_prefix safe_file = ground (
  arith,
  includes-append (c ∷ q) (slash ∷ []) backslash,
  includes-append (c ∷ q) (slash ∷ f) backslash,
  dots_from (c ∷ q) f [],
  dots_from (c ∷ q) [] [],
)

ends_in_slash :
    (x : ℕ) (t out : Text)
    → starts_with (reversed (x ∷ t) out) (slash ∷ []) ≡ true
    → (q : Text) × (x ∷ t ≡ q ++ slash ∷ [])
ends_in_slash x [] out h = let e : x ≡ slash = ground arith in ([], ap (λ c. c ∷ []) e)
ends_in_slash x (y ∷ t) out h = let (q, e) = ends_in_slash y t (x ∷ out) h in (x ∷ q, ap (◌∷◌ x) e)

-- A text that `prefix` lets through.
abbrev pub IsPrefix : Text → Type 0
IsPrefix p = (ends_with p (slash ∷ []) ≡ true) × IsSafe p

IsPrefix-append : (p f : Text) → IsPrefix p → IsSafe f → IsSafe (p ++ f)
IsPrefix-append [] f (ends, safe) safe_file = absurd (ground arith)
IsPrefix-append (x ∷ t) f (ends, safe) safe_file =
    let (q, e) = ends_in_slash x t [] ends in
    let joined : (x ∷ t) ++ f ≡ q ++ slash ∷ f =
      ap (λ p. p ++ f) e ∙ append_assoc q (slash ∷ []) f in
    subst IsSafe (sym joined) (append-IsSafe q f (subst IsSafe e safe) safe_file)

throw_if-ok :
    {E : Type 0} (test : Bool) (e : E) (u : Unit {0}) → throw_if test e ≡ ok u → test ≡ false
throw_if-ok false e u h = refl
throw_if-ok true e u h = absurd (ground arith)

safe_path-Yields : (obj : Fields) (key : String) → Yields IsSafe (safe_path obj key)
unfolding safe_path
safe_path-Yields obj key = bind-Yields IsSafe (str obj key) _ (λ value _.
    bind-Yields IsSafe (throw_if (is_unsafe value) (unsafe_path key)) _ (λ u passed.
      ok-Yields IsSafe value (throw_if-ok (is_unsafe value) (unsafe_path key) u passed)))

prefix-Yields : (obj : Fields) (key : String) → Yields IsPrefix (prefix obj key)
unfolding prefix
prefix-Yields obj key = bind-Yields IsPrefix (safe_path obj key) _ (λ value safe.
    let ends = ends_with value (slash ∷ []) in
    bind-Yields IsPrefix (throw_if (not ends) (bad_prefix key)) _ (λ u passed.
      let no_error : not ends ≡ false = throw_if-ok (not ends) (bad_prefix key) u passed in
      ok-Yields IsPrefix value (ground arith, (safe_path-Yields obj key).yields value safe)))

abbrev HasPrefix : WorkMessage → Type 0
HasPrefix (render_batch_message m) = IsPrefix m.output_prefix
HasPrefix (assemble_zip_message m) = IsPrefix m.source_prefix

parse_render_batch-Yields : (raw : Fields) → Yields HasPrefix (parse_render_batch raw)
unfolding parse_render_batch
parse_render_batch-Yields raw =
    let P = HasPrefix in
    bind-Yields P (str raw "jobId") _ (λ job_id _.
      bind-Yields P (int raw "municipalityId" 1) _ (λ municipality_id _.
        bind-Yields P (document_type_of raw) _ (λ kind _.
          bind-Yields P (int raw "batchIndex" 0) _ (λ batch_index _.
            bind-Yields P (safe_path raw "inputBlob") _ (λ input_blob _.
              bind-Yields P (template raw) _ (λ template_ref _.
                bind-Yields P (prefix raw "outputPrefix") _ (λ output_prefix h.
                  ok-Yields P _ ((prefix-Yields raw "outputPrefix").yields output_prefix h))))))))

parse_assemble_zip-Yields : (raw : Fields) → Yields HasPrefix (parse_assemble_zip raw)
unfolding parse_assemble_zip
parse_assemble_zip-Yields raw =
    let P = HasPrefix in
    bind-Yields P (str raw "jobId") _ (λ job_id _.
      bind-Yields P (prefix raw "sourcePrefix") _ (λ source_prefix h.
        bind-Yields P (safe_path raw "zipBlob") _ (λ zip_blob _.
          bind-Yields P (int raw "expectedFiles" 1) _ (λ expected_files _.
            ok-Yields P _ ((prefix-Yields raw "sourcePrefix").yields source_prefix h)))))

guard-Yields :
    {A : Type 0} (P : A → Type 0) (r : Result InvalidShape A) → Yields P r → Yields P (guard r)
guard-Yields P (ok a) y = ok-Yields P a (y.yields a refl)
guard-Yields P (err e) y = err-Yields P _

parse_work_message-Yields : (raw : Json) → Yields HasPrefix (parse_work_message raw)
unfolding parse_work_message
parse_work_message-Yields raw =
    let P = HasPrefix in
    guard-Yields P _ (
      bind-Yields P (or_throw (is_object raw) _) _ (λ obj _.
        bind-Yields P (check_schema_version obj) _ (λ _ _.
          bind-Yields P (or_throw (text_of (value_at obj "type")) _) _ (λ kind _.
            elim (Bool-cases (kind == codes "render-batch")) [
              | inl batch ↦ rw batch (parse_render_batch-Yields obj)
              | inr other ↦ rw other (elim (Bool-cases (kind == codes "assemble-zip")) [
                | inl zip ↦ rw zip (parse_assemble_zip-Yields obj)
                | inr unknown ↦ rw unknown (err-Yields P _)
              ])
            ]))))

-- Safe names, none of them twice, and none of `names`.
abbrev AreNames : List Text → List BatchDocument → Type 0
AreNames names documents =
    All (λ (d : BatchDocument). IsSafe d.file_name) documents
    × Pairwise (λ (a b : BatchDocument). a.file_name ≢ b.file_name) documents
    × All (λ (d : BatchDocument). includes names d.file_name ≡ false) documents

includes-add_ne :
    {A : Type 0} ⦃e : Eq A⦄ (xs : List A) (a b : A) → includes (add xs a) b ≡ false → a ≢ b
includes-add_ne ⦃e⦄ xs a b absent same =
    ground (arith, includes-add xs a b, (e.equals_iff a b).1 same)

AreNames-cons :
    (names : List Text) (d : BatchDocument) (documents : List BatchDocument)
    → IsSafe d.file_name
    → includes names d.file_name ≡ false
    → AreNames (add names d.file_name) documents
    → AreNames names (d ∷ documents)
AreNames-cons names d documents safe fresh (h, p, n) = (
  (safe, h),
  (
    All-mono (λ (x : BatchDocument). includes (add names d.file_name) x.file_name ≡ false)
        (λ (x : BatchDocument). d.file_name ≢ x.file_name) documents
        (λ x. includes-add_ne names d.file_name x.file_name) n,
    p,
  ),
  (
    fresh,
    All-mono (λ (x : BatchDocument). includes (add names d.file_name) x.file_name ≡ false)
        (λ (x : BatchDocument). includes names x.file_name ≡ false) documents
        (λ x absent. ground (arith, includes-add names d.file_name x.file_name)) n,
  ),
)

parse_documents-Yields :
    (items : Items) (names : List Text) → Yields (AreNames names) (parse_documents items names)
unfolding parse_documents
parse_documents-Yields no_item names = ok-Yields (AreNames names) [] (tt, tt, tt)
parse_documents-Yields (item doc rest) names =
    let P = AreNames names in
    bind-Yields P (or_throw (is_object doc) _) _ (λ obj _.
      bind-Yields P (safe_path obj "fileName") _ (λ file_name safe.
        bind-Yields P (throw_if (not (ends_with file_name (codes ".pdf"))) _) _ (λ _ _.
          bind-Yields P (throw_if (includes names file_name) _) _ (λ u fresh.
            bind-Yields P (data_of obj) _ (λ values _.
              bind-Yields P (parse_documents rest (add names file_name)) _ (λ documents h.
                let d : BatchDocument = record { file_name = file_name; values = values } in
                ok-Yields P (d ∷ documents) (
                  AreNames-cons names d documents
                    ((safe_path-Yields obj "fileName").yields file_name safe)
                    (throw_if-ok (includes names file_name) _ u fresh)
                    ((parse_documents-Yields rest (add names file_name)).yields documents h))))))))

parse_batch_input-Yields : (raw : Json) → Yields (AreNames []) (parse_batch_input raw)
unfolding parse_batch_input
parse_batch_input-Yields raw =
    let P = AreNames [] in
    guard-Yields P _
      (bind-Yields P (or_throw (documents_of raw) _) _ (λ items _. parse_documents-Yields items []))

-- A relative path without a backslash, of whose parts none is "." or "..".
abbrev pub IsBelow : Text → Type 0
IsBelow path =
    (starts_with path (slash ∷ []) ≡ false)
    × (includes path backslash ≡ false)
    × All (λ part. (part ≢ codes "..") × (part ≢ codes ".")) (split slash path)

no_dots :
    (parts : List Text)
    → any is_dots parts ≡ false
    → All (λ part. (part ≢ codes "..") × (part ≢ codes ".")) parts
no_dots [] h = tt
no_dots (part ∷ parts) h = (
  (
    λ e. ground (arith, (list_eq.equals_iff part (codes "..")).1 e),
    λ e. ground (arith, (list_eq.equals_iff part (codes ".")).1 e),
  ),
  no_dots parts (ground arith),
)

IsBelow-of : (path : Text) → IsSafe path → IsBelow path
IsBelow-of path safe = (ground arith, ground arith, no_dots (split slash path) (ground arith))

pub append_cancel : (p a b : Text) → p ++ a ≡ p ++ b → a ≡ b
append_cancel [] a b h = h
append_cancel (x ∷ p) a b h = append_cancel p a b (ap (drop 1) h)

-- No two documents of a valid batch have the same name.
pub batch_names :
    (input : Json) (documents : List BatchDocument)
    → parse_batch_input input ≡ ok documents
    → Pairwise (λ (a b : BatchDocument). a.file_name ≢ b.file_name) documents
batch_names input documents read =
    let (safe, apart, fresh) = (parse_batch_input-Yields input).yields documents read in apart

-- The PDFs of a valid batch whose message is valid are written to different relative paths, with no
-- backslash and no part "." or "..".
pub batch_paths :
    (raw input : Json) (m : RenderBatchMessage) (documents : List BatchDocument)
    → parse_work_message raw ≡ ok (render_batch_message m)
    → parse_batch_input input ≡ ok documents
    → let paths = map (λ (d : BatchDocument). m.output_prefix ++ d.file_name) documents in
      All IsBelow paths × Pairwise (λ a b. a ≢ b) paths
batch_paths raw input m documents sent read =
    let has_prefix = (parse_work_message-Yields raw).yields (render_batch_message m) sent in
    let (safe, apart, fresh) = (parse_batch_input-Yields input).yields documents read in
    let path : BatchDocument → Text = λ d. m.output_prefix ++ d.file_name in
    (
      All-map IsBelow path documents (
          All-mono (λ (d : BatchDocument). IsSafe d.file_name) (λ d. IsBelow (path d)) documents
            (λ d h. IsBelow-of (path d) (IsPrefix-append m.output_prefix d.file_name has_prefix h))
            safe),
      Pairwise-map (λ (a b : BatchDocument). a.file_name ≢ b.file_name) (λ a b. a ≢ b) path
          documents
          (λ a b other same. other (append_cancel m.output_prefix a.file_name b.file_name same))
          apart,
    )

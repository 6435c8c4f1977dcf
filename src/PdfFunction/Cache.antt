-- ===== src/PdfFunction/Cache.antt =====
-- apps/pdf-function/src/templates.ts: the templates that the process keeps by their hash, the least
-- recently used first. `sha256` is the hash function of node:crypto, an argument.
pub mod Sound
use slomp.Prelude.{
  ℕ, Bool, true, false, not, Option, none, some, List, [], ◌∷◌, ◌++◌, if◌then◌else◌, ◌==◌, nat_eq,
  list_eq, ltb, length, get, set, delete, drop, ok,
}
use slomp.Prelude.Texts.{Text}
use slomp.PdfFunction.Contract.{
  TemplateRef, Fields, field, no_field, text, JobError, job_error, pdf_template_unavailable,
}
use slomp.PdfFunction.Storage.{Buffer, Service, Io, ◌>>=◌, ◌>>◌, continue, return, throw, download}

abbrev pub Cache : Type 0
Cache = List (Text × Buffer)

-- A hit moves its entry to the end.
abbrev pub touch : Cache → Text → Buffer → Cache
touch cache key template = set (delete cache key) key template

-- The oldest entry makes room, where there are more than `max_entries`.
abbrev pub keep : ℕ → Cache → Text → Buffer → Cache
keep max_entries cache key template =
    let kept = set cache key template in if ltb max_entries (length kept) then drop 1 kept else kept

unfoldable pub put_cache : Cache → Io (Unit {0})
put_cache cache s = (record s { cache = cache }, ok tt)

unfoldable pub read_cache : Io Cache
read_cache s = (s, ok s.cache)

abbrev pub not_found : TemplateRef → JobError
not_found ref = record {
  code = pdf_template_unavailable;
  details = some (field "blob" (text ref.blob) no_field);
}

abbrev pub hash_mismatch : TemplateRef → Text → JobError
hash_mismatch ref actual = record {
  code = pdf_template_unavailable;
  details = some (
      field "blob" (text ref.blob)
        (field "expected" (text ref.sha256) (field "actual" (text actual) no_field)));
}

abbrev pub checked : (Buffer → Text) → ℕ → TemplateRef → Option Buffer → Io Buffer
checked sha256 max_entries ref none = throw (job_error (not_found ref))
checked sha256 max_entries ref (some template) =
    if not (sha256 template == ref.sha256)
    then throw (job_error (hash_mismatch ref (sha256 template)))
    else do
      cache ← read_cache
      put_cache (keep max_entries cache ref.sha256 template)
      return template

abbrev pub fetch : (Buffer → Text) → ℕ → List Text → TemplateRef → Option Buffer → Io Buffer
fetch sha256 max_entries containers ref (some cached) = do
  cache ← read_cache
  put_cache (touch cache ref.sha256 cached)
  return cached
fetch sha256 max_entries containers ref none = do
  found ← download containers ref.blob
  checked sha256 max_entries ref found

unfoldable pub get_template : (Buffer → Text) → ℕ → List Text → TemplateRef → Io Buffer
unfolding read_cache put_cache
get_template sha256 max_entries containers ref = do
  cache ← read_cache
  fetch sha256 max_entries containers ref (get cache ref.sha256)

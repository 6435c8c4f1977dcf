-- ===== src/Templates/Versions/Cleanup.antt =====
-- The clean-up of a failed upload deletes a blob by its path, after the lock of the municipality is
-- gone. Another upload of the same kind takes the same version, and so the same path.
use slomp.Prelude.{
  ◌≡◌, refl, ◌∙◌, true, false, ◌&&◌, not, List, ◌==◌, pair_eq, nat_eq, filter, includes,
  includes-filter, beq_refl, add, ◌+◌, ℕ,
}
use slomp.Templates.Versions.{
  type_eq, Kind, BlobPath, World, TemplateFile, new_template, publish, last_version, clean_up,
  rolled_back, stored,
}

removed :
    (path : BlobPath) (blobs : List BlobPath)
    → includes (filter (λ b. not (b == path)) blobs) path ≡ false
removed path blobs = includes-filter (λ b. not (b == path)) blobs path ∙ gone
  where
    gone : (not (path == path) && includes blobs path) ≡ false
    gone = rw (beq_refl path) refl

-- An upload that fails after its blob is stored and cleans up only when another upload of the same kind
-- was stored deletes the blob of that upload: the version that is active then has no file.
pub clean_up_late :
    (kind : Kind) (file other : TemplateFile) (by by' : ℕ) (w : World)
    → let (w1, failed) = publish kind file by true false w in
      let (w2, outcome) = publish kind other by' true true w1 in
      let created = new_template kind other by' w1 in
      (failed ≡ rolled_back created.blob_path)
      × (outcome ≡ stored created)
      × (includes (clean_up created.blob_path true w2).blobs created.blob_path ≡ false)
unfolding publish
clean_up_late kind file other by by' w = (
  refl,
  refl,
  removed (kind, last_version kind w.templates + 1)
      (add (add w.blobs (kind, last_version kind w.templates + 1))
        (kind, last_version kind w.templates + 1)),
)

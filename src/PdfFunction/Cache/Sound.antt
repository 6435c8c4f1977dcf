-- ===== src/PdfFunction/Cache/Sound.antt =====
-- What the cache of templates holds.
use slomp.Prelude.{
  ℕ, ◌+◌, Option, none, some, List, [], ◌∷◌, ◌==◌, nat_eq, list_eq, ltb, length, get, set, delete,
  drop, ok, err, Result, ◌≡◌, refl, sym, ap, ◌∙◌, subst, ◌≤◌, arith, All, Bool-cases, Option-cases,
  inl, inr, length-set-le, length-drop,
}
use slomp.Prelude.Texts.{Text}
use slomp.PdfFunction.Contract.{TemplateRef, Thrown}
use slomp.PdfFunction.Storage.{
  Fault-cases, Buffer, Service, continue, download, next_fault, is_allowed,
}
use slomp.PdfFunction.Cache.{Cache, touch, keep, read_cache, put_cache, checked, get_template}

module _ (sha256 : Buffer → Text) (max_entries : ℕ) where
  abbrev Hashed : Text × Buffer → Type 0
  Hashed b = sha256 b.1 ≡ b.0

  -- At most `max_entries` templates, each under its own hash.
  abbrev pub IsSound : Cache → Type 0
  IsSound cache = (length cache ≤ max_entries) × All Hashed cache

  set-Hashed :
      (cache : Cache) (key : Text) (template : Buffer)
      → sha256 template ≡ key
      → All Hashed cache
      → All Hashed (set cache key template)
  set-Hashed [] key template right h = (right, tt)
  set-Hashed ((k, b) ∷ cache) key template right (p, h) = elim (Bool-cases (k == key)) [
    | inl same ↦ rw same (right ∙ sym ((list_eq.equals_iff k key).0 same), h)
    | inr other ↦ rw other (p, set-Hashed cache key template right h)
  ]

  delete-Hashed : (cache : Cache) (key : Text) → All Hashed cache → All Hashed (delete cache key)
  delete-Hashed [] key h = tt
  delete-Hashed ((k, b) ∷ cache) key (p, h) = ground (arith, delete-Hashed cache key h)

  get-Hashed :
      (cache : Cache) (key : Text) (template : Buffer)
      → All Hashed cache
      → get cache key ≡ some template
      → sha256 template ≡ key
  get-Hashed [] key template h e = absurd (ground arith)
  get-Hashed ((k, b) ∷ cache) key template (p, h) e = elim (Bool-cases (k == key)) [
    | inl same ↦
        let found : some b ≡ some template = rw same at e in
        let is_it : b ≡ template = ground arith in
        ap sha256 (sym is_it) ∙ p ∙ (list_eq.equals_iff k key).0 same
    | inr other ↦ get-Hashed cache key template h (rw other at e)
  ]

  length-delete-le : (cache : Cache) (key : Text) → length (delete cache key) ≤ length cache
  length-delete-le [] key = omega arith
  length-delete-le ((k, b) ∷ cache) key = ground (arith, length-delete-le cache key)

  length-delete-lt :
      (cache : Cache) (key : Text) (template : Buffer)
      → get cache key ≡ some template
      → length (delete cache key) + 1 ≤ length cache
  length-delete-lt [] key template e = absurd (ground arith)
  length-delete-lt ((k, b) ∷ cache) key template e =
      ground (arith, length-delete-lt cache key template, length-delete-le cache key)

  touch-IsSound :
      (cache : Cache) (key : Text) (template : Buffer)
      → get cache key ≡ some template
      → IsSound cache
      → IsSound (touch cache key template)
  touch-IsSound cache key template found (short, h) = (
    omega (
      arith,
      length-set-le (delete cache key) key template,
      length-delete-lt cache key template found,
    ),
    set-Hashed (delete cache key) key template (get-Hashed cache key template h found)
        (delete-Hashed cache key h),
  )

  drop-Hashed : (cache : Cache) → All Hashed cache → All Hashed (drop 1 cache)
  drop-Hashed [] h = tt
  drop-Hashed (b ∷ cache) h = ground arith

  keep-IsSound :
      (cache : Cache) (key : Text) (template : Buffer)
      → sha256 template ≡ key
      → IsSound cache
      → IsSound (keep max_entries cache key template)
  keep-IsSound cache key template right (short, h) =
      let kept = set cache key template in
      let hashed = set-Hashed cache key template right h in
      elim (Bool-cases (ltb max_entries (length kept))) [
        | inl over ↦ rw over (
          omega (arith, length-set-le cache key template, length-drop 1 kept),
          drop-Hashed kept hashed,
        )
        | inr within ↦ rw within (ground arith, hashed)
      ]

  -- A sound cache after the call, and the hash that was asked for where a template is returned.
  abbrev pub IsServed : TemplateRef → Service × Result Thrown Buffer → Type 0
  IsServed ref r =
      IsSound r.0.cache × ((template : Buffer) → r.1 ≡ ok template → sha256 template ≡ ref.sha256)

  checked-IsServed :
      (ref : TemplateRef) (found : Option Buffer) (s : Service)
      → IsSound s.cache
      → IsServed ref (checked sha256 max_entries ref found s)
  unfolding read_cache put_cache
  checked-IsServed ref none s sound = (sound, λ template h. absurd (ground arith))
  checked-IsServed ref (some b) s sound = elim (Bool-cases (sha256 b == ref.sha256)) [
    | inl right ↦
        let same : sha256 b ≡ ref.sha256 = (list_eq.equals_iff (sha256 b) ref.sha256).0 right in
        rw right (
          keep-IsSound s.cache ref.sha256 b same sound,
          λ template h. let e : b ≡ template = ground arith in ap sha256 (sym e) ∙ same,
        )
    | inr wrong ↦ rw wrong (sound, λ template h. absurd (ground arith))
  ]

  fetched-IsServed :
      (ref : TemplateRef) (r : Service × Result Thrown (Option Buffer))
      → IsSound r.0.cache
      → IsServed ref (continue (checked sha256 max_entries ref) r)
  fetched-IsServed ref (s, ok found) sound = checked-IsServed ref found s sound
  fetched-IsServed ref (s, err e) sound = (sound, λ template h. absurd (ground arith))

  module _ (containers : List Text) where
    pub download-cache :
        (path : Text) (s : Service) → (download containers path s).0.cache ≡ s.cache
    unfolding download
    download-cache path s = elim (Bool-cases (is_allowed containers path)) [
      | inr refused ↦ rw refused refl
      | inl allowed ↦ rw allowed (elim (Fault-cases (next_fault s.faults)) [
        | inl e ↦ rw e refl
        | inr (inl e) ↦ rw e refl
        | inr (inr e) ↦ rw e refl
      ])
    ]

    -- Every call keeps at most `max_entries` templates in the cache, each under its own hash, and
    -- a template that it returns has the hash that was asked for.
    pub get_template-IsServed :
        (ref : TemplateRef) (s : Service)
        → IsSound s.cache
        → IsServed ref (get_template sha256 max_entries containers ref s)
    unfolding get_template read_cache put_cache
    get_template-IsServed ref s sound = elim (Option-cases (get s.cache ref.sha256)) [
      | inl missing ↦ rw missing (
          fetched-IsServed ref (download containers ref.blob s)
            (subst IsSound (sym (download-cache ref.blob s)) sound))
      | inr (b, found) ↦ rw found (
        touch-IsSound s.cache ref.sha256 b found sound,
        λ template h.
            let e : b ≡ template = ground arith in
            ap sha256 (sym e) ∙ get-Hashed s.cache ref.sha256 b sound.1 found,
      )
    ]

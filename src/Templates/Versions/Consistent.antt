-- ===== src/Templates/Versions/Consistent.antt =====
-- Whatever requests run, a municipality has at most one active version of each type of document.
use slomp.Prelude.{
  ℕ, ◌+◌, ◌≤◌, ◌<◌, ◌≡◌, ◌≢◌, refl, sym, ap, ◌∙◌, Bool, true, false, some, List, [], ◌∷◌, map,
  if◌then◌else◌, ◌==◌, nat_eq, pair_eq, find, arith, Bool-cases, Option-cases, inl, inr, All,
  All-map, All-mono, All-both, Pairwise, Pairwise-map, Pairwise-append_one, pair_beq_iff,
  Pairwise-All, ◌⊎◌, subst, nat_beq_iff, All-append,
}
use slomp.Database.Rows.{find-All}
use slomp.Templates.Versions.{
  type_eq, Kind, BlobPath, Template, World, TemplateFile, last_version, is_active_of, deactivate,
  new_template, Outcome, stored, not_uploaded, rolled_back, publish, clean_up, Decision, same_file,
  not_confirmed, goes_on, decide, conclude, after_decision, store_version, is_own, activate_row,
  activate,
}

-- Two templates of one kind have different versions and are not both active; ids are never shared.
pub record AreConsistent (a b : Template) : Type 0 where
  pub ids : a.id ≢ b.id
  pub versions : a.kind ≡ b.kind → a.version ≢ b.version
  pub actives : a.kind ≡ b.kind → a.is_active ≡ true → b.is_active ≡ false

pub record IsConsistent (w : World) : Type 0 where
  pub apart : Pairwise AreConsistent w.templates
  pub numbered : All (λ t. t.id < w.next_id) w.templates

last_version-le :
    (kind : Kind) (ts : List Template) (n : ℕ)
    → last_version kind ts ≤ n
    → All (λ t. t.kind ≡ kind → t.version ≤ n) ts
unfolding last_version
last_version-le kind [] n h = tt
last_version-le kind (t ∷ ts) n h =
    (λ e. ground (arith, (pair_beq_iff t.kind kind).1 e), last_version-le kind ts n (ground arith))

abbrev deactivated : Kind → Template → Template
deactivated kind t = if is_active_of kind t then record t { is_active = false } else t

deactivated_fields :
    (kind : Kind) (t : Template)
    → ((deactivated kind t).id ≡ t.id)
      × ((deactivated kind t).kind ≡ t.kind)
      × ((deactivated kind t).version ≡ t.version)
      × ((deactivated kind t).is_active ≡ true → t.is_active ≡ true)
      × (t.kind ≡ kind → (deactivated kind t).is_active ≡ false)
deactivated_fields kind t = elim (Bool-cases (is_active_of kind t)) [
  | inl hit ↦ rw hit (refl, refl, refl, λ h. absurd (ground arith), λ e. refl)
  | inr miss ↦
      rw miss (refl, refl, refl, λ h. h, λ e. ground (arith, (pair_beq_iff t.kind kind).1 e))
]

-- What may change in a version that stays consistent with the others.
abbrev IsLowered : Template → Template → Type 0
IsLowered new old =
    (new.id ≡ old.id)
    × (new.kind ≡ old.kind)
    × (new.version ≡ old.version)
    × (new.is_active ≡ true → old.is_active ≡ true)

lowered-AreConsistent :
    (a a' b b' : Template)
    → IsLowered a' a
    → IsLowered b' b
    → AreConsistent a b
    → AreConsistent a' b'
lowered-AreConsistent a a' b b' (i, k, v, l) (j, m, u, r) c = record {
  ids = λ e. c.ids (sym i ∙ e ∙ j);
  versions = λ e h. c.versions (sym k ∙ e ∙ m) (sym v ∙ h ∙ u);
  actives = λ e h. elim (Bool-cases b'.is_active) [
    | inr off ↦ off
    | inl on ↦ absurd (ground (arith, r on, c.actives (sym k ∙ e ∙ m) (l h)))
  ];
}

IsLowered-deactivated : (kind : Kind) (t : Template) → IsLowered (deactivated kind t) t
IsLowered-deactivated kind t = let f = deactivated_fields kind t in (f.0, f.1, f.2, f.3)

deactivate-apart :
    (kind : Kind) (ts : List Template)
    → Pairwise AreConsistent ts
    → Pairwise AreConsistent (deactivate kind ts)
deactivate-apart kind ts h =
    Pairwise-map AreConsistent AreConsistent (deactivated kind) ts
      (λ a b c.
        lowered-AreConsistent a (deactivated kind a) b (deactivated kind b)
          (IsLowered-deactivated kind a) (IsLowered-deactivated kind b) c)
      h

abbrev Bound : Kind → ℕ → Template → Type 0
Bound kind last t = t.kind ≡ kind → t.version ≤ last

publish-IsConsistent :
    (kind : Kind) (file : TemplateFile) (by : ℕ) (uploads commits : Bool) (w : World)
    → IsConsistent w
    → IsConsistent (publish kind file by uploads commits w).0
unfolding publish
publish-IsConsistent kind file by false commits w c = c
publish-IsConsistent kind file by true false w c = record { apart = c.apart; numbered = c.numbered }
publish-IsConsistent kind file by true true w c =
    let new = new_template kind file by w in
    let last = last_version kind w.templates in
    let fresh : All (λ t. AreConsistent t new) (deactivate kind w.templates) =
      All-map (λ t. AreConsistent t new) (deactivated kind) w.templates
        (All-both (λ t. t.id < w.next_id) (Bound kind last)
          (λ t. AreConsistent (deactivated kind t) new) w.templates
          (λ t h k.
            let f = deactivated_fields kind t in
            record {
              ids = λ e. omega (arith, f.0);
              versions = λ e v. omega (arith, k (sym f.1 ∙ e), f.2);
              actives = λ e on. absurd (ground (arith, f.4 (sym f.1 ∙ e)));
            })
          c.numbered (last_version-le kind w.templates last (omega arith))) in
    record {
      apart =
          Pairwise-append_one AreConsistent (deactivate kind w.templates) new
            (deactivate-apart kind w.templates c.apart) fresh;
      numbered =
          All-append (λ t. t.id < w.next_id + 1) (deactivate kind w.templates) (new ∷ [])
            (All-map (λ t. t.id < w.next_id + 1) (deactivated kind) w.templates
              (All-mono (λ t. t.id < w.next_id) (λ t. (deactivated kind t).id < w.next_id + 1)
                w.templates (λ t h. omega (arith, (deactivated_fields kind t).0)) c.numbered))
            (omega arith, tt);
    }

clean_up-IsConsistent :
    (path : BlobPath) (deletes : Bool) (w : World)
    → IsConsistent w
    → IsConsistent (clean_up path deletes w)
clean_up-IsConsistent path true w c = record { apart = c.apart; numbered = c.numbered }
clean_up-IsConsistent path false w c = c

conclude-IsConsistent :
    (deletes : Bool) (w : World) (outcome : Outcome)
    → IsConsistent w
    → IsConsistent (conclude deletes (w, outcome)).0
conclude-IsConsistent deletes w (stored t) c = c
conclude-IsConsistent deletes w not_uploaded c = c
conclude-IsConsistent deletes w (rolled_back path) c = clean_up-IsConsistent path deletes w c

after_decision-IsConsistent :
    (d : Decision) (kind : Kind) (file : TemplateFile) (by : ℕ) (uploads commits deletes : Bool)
    (w : World)
    → IsConsistent w
    → IsConsistent (after_decision d kind file by uploads commits deletes w).0
after_decision-IsConsistent (same_file active) kind file by uploads commits deletes w c = c
after_decision-IsConsistent not_confirmed kind file by uploads commits deletes w c = c
after_decision-IsConsistent goes_on kind file by uploads commits deletes w c =
    let published = publish kind file by uploads commits w in
    conclude-IsConsistent deletes published.0 published.1
      (publish-IsConsistent kind file by uploads commits w c)

-- The change of activate to one row.
abbrev activated : Template → Template → Template
activated target t =
    let t' = deactivated target.kind t in
    if t'.id == target.id then record t' { is_active = true } else t'

activated_fields :
    (target t : Template)
    → ((activated target t).id ≡ t.id)
      × ((activated target t).kind ≡ t.kind)
      × ((activated target t).version ≡ t.version)
      × ((activated target t).is_active ≡ true
          → (t.id ≡ target.id) ⊎ ((t.is_active ≡ true) × (t.kind ≢ target.kind)))
activated_fields target t =
    let f = deactivated_fields target.kind t in
    let t' = deactivated target.kind t in
    elim (Bool-cases (t'.id == target.id)) [
      | inl hit ↦ rw hit (f.0, f.1, f.2, λ on. inl (sym f.0 ∙ (nat_beq_iff t'.id target.id).0 hit))
      | inr miss ↦ rw miss (f.0, f.1, f.2, λ on. inr (f.3 on, λ e. ground (arith, on, f.4 e)))
    ]

-- A row with the target's id is of its kind.
abbrev OfTarget : Template → Template → Type 0
OfTarget target t = t.id ≡ target.id → t.kind ≡ target.kind

activated-AreConsistent :
    (target a b : Template)
    → OfTarget target a
    → OfTarget target b
    → AreConsistent a b
    → AreConsistent (activated target a) (activated target b)
activated-AreConsistent target a b own own' c =
    let (i, k, v, l) = activated_fields target a in
    let (j, m, u, r) = activated_fields target b in
    record {
      ids = λ e. c.ids (sym i ∙ e ∙ j);
      versions = λ e h. c.versions (sym k ∙ e ∙ m) (sym v ∙ h ∙ u);
      actives = λ e on.
          let same : a.kind ≡ b.kind = sym k ∙ e ∙ m in
          elim (Bool-cases (activated target b).is_active) [
            | inr off ↦ off
            | inl on' ↦ absurd (elim (l on) [
              | inl mine ↦ elim (r on') [
                | inl its ↦ c.ids (mine ∙ sym its)
                | inr (active, other) ↦ other (sym same ∙ own mine)
              ]
              | inr (active, other) ↦ elim (r on') [
                | inl its ↦ other (same ∙ own' its)
                | inr (active', other') ↦ ground (arith, c.actives same active)
              ]
            ])
          ];
    }

found-OfTarget :
    (p : Template → Bool) (ts : List Template) (target : Template)
    → Pairwise AreConsistent ts
    → find p ts ≡ some target
    → All (OfTarget target) ts
found-OfTarget p [] target h e = tt
found-OfTarget p (t ∷ ts) target (h, hs) e = elim (Bool-cases (p t)) [
  | inl hit ↦
      let same : t ≡ target = ground (arith, rw hit at e) in
      (
        λ i. ap (λ (r : Template). r.kind) same,
        All-mono (AreConsistent t) (OfTarget target) ts
            (λ u c i. absurd (c.ids (ap (λ (r : Template). r.id) same ∙ sym i))) h,
      )
  | inr miss ↦
      let later = rw miss at e in
      (
        λ i. absurd ((find-All (AreConsistent t) p ts target later h).ids i),
        found-OfTarget p ts target hs later,
      )
]

activate_row-eq :
    (target : Template) (ts : List Template) → activate_row target ts ≡ map (activated target) ts
activate_row-eq target [] = refl
activate_row-eq target (t ∷ ts) = ap (◌∷◌ (activated target t)) (activate_row-eq target ts)

activate-IsConsistent :
    (municipality_id id : ℕ) (w : World)
    → IsConsistent w
    → IsConsistent (activate municipality_id id w).0
unfolding activate
activate-IsConsistent municipality_id id w c =
    elim (Option-cases (find (is_own municipality_id id) w.templates)) [
      | inl missing ↦ rw (missing, activate) c
      | inr (target, found) ↦ elim (Bool-cases target.is_active) [
        | inl active ↦ rw (found, active, activate) c
        | inr idle ↦
            let own = found-OfTarget (is_own municipality_id id) w.templates target c.apart found in
            rw (found, idle, activate)
              (record {
                apart = subst (Pairwise AreConsistent) (sym (activate_row-eq target w.templates)) (
                    Pairwise-map (λ a b. AreConsistent a b × OfTarget target a × OfTarget target b)
                      AreConsistent (activated target) w.templates
                      (λ a b h. activated-AreConsistent target a b h.1 h.2 h.0)
                      (Pairwise-All AreConsistent (OfTarget target) w.templates c.apart own));
                numbered =
                    subst (All (λ t. t.id < w.next_id)) (sym (activate_row-eq target w.templates)) (
                      All-map (λ t. t.id < w.next_id) (activated target) w.templates
                        (All-mono (λ t. t.id < w.next_id) (λ t. (activated target t).id < w.next_id)
                          w.templates (λ t h. omega (arith, (activated_fields target t).0))
                          c.numbered));
              })
      ]
    ]

-- What requests do to the versions: an upload or a saved draft publishes in some state, a failed one
-- cleans its blob up later, and an administrator activates a version. Requests interleave freely.
pub data Step : World → World → Type 0 where
  publishes :
      (kind : Kind) (file : TemplateFile) (by : ℕ) (uploads commits : Bool) (w : World)
      → Step w (publish kind file by uploads commits w).0
  cleans_up : (path : BlobPath) (deletes : Bool) (w : World) → Step w (clean_up path deletes w)
  activates : (municipality_id id : ℕ) (w : World) → Step w (activate municipality_id id w).0

pub data Reach (w : World) : World → Type 0 where
  here : Reach w w
  next : {v u : World} → Reach w v → Step v u → Reach w u

Step-IsConsistent : {v u : World} → Step v u → IsConsistent v → IsConsistent u
Step-IsConsistent (publishes kind file by uploads commits w) c =
    publish-IsConsistent kind file by uploads commits w c
Step-IsConsistent (cleans_up path deletes w) c = clean_up-IsConsistent path deletes w c
Step-IsConsistent (activates municipality_id id w) c = activate-IsConsistent municipality_id id w c

-- Whatever requests interleave, any two versions of one municipality and type have different numbers
-- and are not both active, and no two rows share an id, if that was so at the start.
pub Reach-IsConsistent : {w u : World} → IsConsistent w → Reach w u → IsConsistent u
Reach-IsConsistent c here = c
Reach-IsConsistent c (next r step) = Step-IsConsistent step (Reach-IsConsistent c r)

-- A request that stores a version in one go is such steps.
pub store_version-IsConsistent :
    (kind : Kind) (file : TemplateFile) (by : ℕ) (confirmed uploads commits deletes : Bool)
    (read w : World)
    → IsConsistent w
    → IsConsistent (store_version kind file by confirmed uploads commits deletes read w).0
unfolding store_version
store_version-IsConsistent kind file by confirmed uploads commits deletes read w c =
    after_decision-IsConsistent (decide kind file confirmed read) kind file by uploads commits
      deletes w c

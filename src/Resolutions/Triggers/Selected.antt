-- ===== src/Resolutions/Triggers/Selected.antt =====
-- One trigger for each property and kind that has a pending settlement.
use slomp.Prelude.{
  ℕ, ◌≡◌, ◌≢◌, refl, sym, ap, ◌∙◌, none, List, [], ◌∷◌, ◌++◌, map, if◌then◌else◌, get, set, get-set,
  get-set_self, is_some, pair_eq, nat_eq, ◌==◌, arith, All, All-map, Any, Any-of_get, IsMap,
  set-IsMap, Bool-cases, inl, inr,
}
use slomp.PdfJobs.Rules.{ResolutionKind}
use slomp.Resolutions.Triggers.{
  PendingSettlement, GenerationTrigger, kind_eq, group_key, trigger_of, trigger_by_group,
  select_generation_triggers,
}

abbrev pub key_of : GenerationTrigger → ℕ × ResolutionKind
key_of tr = (tr.property_id, tr.kind)

abbrev Groups : Type 0
Groups = List ((ℕ × ResolutionKind) × GenerationTrigger)

abbrev added : Groups → PendingSettlement → ℕ → Groups
added m s year =
    if is_some (get m (group_key s year)) then m else set m (group_key s year) (trigger_of s year)

-- What is in the map stays in it.
get-added :
    (m : Groups) (s : PendingSettlement) (year : ℕ) (k : ℕ × ResolutionKind)
    → get m k ≢ none
    → get (added m s year) k ≢ none
get-added m s year k h = elim (Bool-cases (is_some (get m (group_key s year)))) [
  | inl known ↦ rw known h
  | inr new ↦ rw new (ground (arith, get-set m (group_key s year) k (trigger_of s year)))
]

get-trigger_by_group :
    (m : Groups) (ss : List PendingSettlement) (year : ℕ) (k : ℕ × ResolutionKind)
    → get m k ≢ none
    → get (trigger_by_group m ss year) k ≢ none
unfolding trigger_by_group
get-trigger_by_group m [] year k h = h
get-trigger_by_group m (s ∷ ss) year k h =
    get-trigger_by_group (added m s year) ss year k (get-added m s year k h)

get-added_self :
    (m : Groups) (s : PendingSettlement) (year : ℕ) → get (added m s year) (group_key s year) ≢ none
get-added_self m s year = elim (Bool-cases (is_some (get m (group_key s year)))) [
  | inl known ↦ rw known (λ e. absurd (ground arith))
  | inr new ↦ rw (new, get-set_self m (group_key s year) (trigger_of s year)) (λ e. cc)
]

known_of :
    (m : Groups) (before after : List PendingSettlement) (s : PendingSettlement) (year : ℕ)
    → get (trigger_by_group m (before ++ s ∷ after) year) (group_key s year) ≢ none
unfolding trigger_by_group
known_of m [] after s year =
    get-trigger_by_group (added m s year) after year (group_key s year) (get-added_self m s year)
known_of m (b ∷ before) after s year = known_of (added m b year) before after s year

-- Every entry has the key of its trigger.
keyed-set :
    (m : Groups) (s : PendingSettlement) (year : ℕ)
    → All (λ b. key_of b.1 ≡ b.0) m
    → All (λ b. key_of b.1 ≡ b.0) (set m (group_key s year) (trigger_of s year))
keyed-set [] s year h = (refl, tt)
keyed-set ((j, w) ∷ m) s year (h, hs) = elim (Bool-cases (j == group_key s year)) [
  | inl same ↦
      rw same
        (sym (((pair_eq {A = ℕ} {B = ResolutionKind}).equals_iff j (group_key s year)).0 same), hs)
  | inr other ↦ rw other (h, keyed-set m s year hs)
]

-- The triggers found so far: keyed, each key once, each of a pending settlement.
record AreSelected (year : ℕ) (ss : List PendingSettlement) (m : Groups) : Type 0 where
  keyed : All (λ b. key_of b.1 ≡ b.0) m
  once : IsMap m
  pending : All (λ b. Any (λ s. trigger_of s year ≡ b.1) ss) m

pending-set :
    (ss : List PendingSettlement) (m : Groups) (s : PendingSettlement) (year : ℕ)
    → Any (λ x. trigger_of x year ≡ trigger_of s year) ss
    → All (λ b. Any (λ x. trigger_of x year ≡ b.1) ss) m
    → All
        (λ b. Any (λ x. trigger_of x year ≡ b.1) ss)
        (set m (group_key s year) (trigger_of s year))
pending-set ss [] s year own h = (own, tt)
pending-set ss ((j, w) ∷ m) s year own (h, hs) = elim (Bool-cases (j == group_key s year)) [
  | inl same ↦ rw same (own, hs)
  | inr other ↦ rw other (h, pending-set ss m s year own hs)
]

added-AreSelected :
    (year : ℕ) (ss : List PendingSettlement) (m : Groups) (s : PendingSettlement)
    → Any (λ x. x ≡ s) ss
    → AreSelected year ss m
    → AreSelected year ss (added m s year)
added-AreSelected year ss m s own h = elim (Bool-cases (is_some (get m (group_key s year)))) [
  | inl known ↦ rw known h
  | inr new ↦ rw new (record {
    keyed = keyed-set m s year h.keyed;
    once = set-IsMap m (group_key s year) (trigger_of s year) h.once;
    pending = pending-set ss m s year (own_trigger ss own) h.pending;
  })
]
  where
    own_trigger :
        (xs : List PendingSettlement)
        → Any (λ x. x ≡ s) xs
        → Any (λ x. trigger_of x year ≡ trigger_of s year) xs
    own_trigger (x ∷ xs) (inl e) = inl (ap (λ y. trigger_of y year) e)
    own_trigger (x ∷ xs) (inr a) = inr (own_trigger xs a)
    own_trigger [] a = a

trigger_by_group-AreSelected :
    (year : ℕ) (all ss : List PendingSettlement) (m : Groups)
    → All (λ s. Any (λ x. x ≡ s) all) ss
    → AreSelected year all m
    → AreSelected year all (trigger_by_group m ss year)
unfolding trigger_by_group
trigger_by_group-AreSelected year all [] m own h = h
trigger_by_group-AreSelected year all (s ∷ ss) m (o, own) h =
    trigger_by_group-AreSelected year all ss (added m s year) own
      (added-AreSelected year all m s o h)

more :
    (x : PendingSettlement) (all ss : List PendingSettlement)
    → All (λ s. Any (λ y. y ≡ s) all) ss
    → All (λ s. Any (λ y. y ≡ s) (x ∷ all)) ss
more x all [] h = tt
more x all (s ∷ ss) (h, hs) = (inr h, more x all ss hs)

each : (ss : List PendingSettlement) → All (λ s. Any (λ y. y ≡ s) ss) ss
each [] = tt
each (s ∷ ss) = (inl refl, more s ss ss (each ss))

selected :
    (ss : List PendingSettlement) (year : ℕ) → AreSelected year ss (trigger_by_group [] ss year)
selected ss year =
    trigger_by_group-AreSelected year ss ss [] (each ss)
      (record { keyed = tt; once = tt; pending = tt })

Any-keyed :
    (m : Groups) (k : ℕ × ResolutionKind)
    → All (λ b. key_of b.1 ≡ b.0) m
    → Any (λ b. b.0 ≡ k) m
    → Any (λ tr. key_of tr ≡ k) (map (λ b. b.1) m)
Any-keyed ((j, w) ∷ m) k (h, hs) (inl e) = inl (h ∙ e)
Any-keyed ((j, w) ∷ m) k (h, hs) (inr a) = inr (Any-keyed m k hs a)
Any-keyed [] k h a = a

-- Every pending settlement has a trigger of its property and its kind.
select_generation_triggers_covers :
    (before after : List PendingSettlement) (s : PendingSettlement) (year : ℕ)
    → Any
        (λ tr. key_of tr ≡ group_key s year)
        (select_generation_triggers (before ++ s ∷ after) year)
unfolding select_generation_triggers
select_generation_triggers_covers before after s year =
    let ss = before ++ s ∷ after in
    Any-keyed (trigger_by_group [] ss year) (group_key s year) (selected ss year).keyed (
      Any-of_get (trigger_by_group [] ss year) (group_key s year) (known_of [] before after s year))

-- No two triggers are of the same property and kind.
abbrev pub AreApart : List GenerationTrigger → Type 0
AreApart [] = Unit
AreApart (tr ∷ trs) = All (λ u. key_of u ≢ key_of tr) trs × AreApart trs

apart_of :
    (m : Groups) (tr : GenerationTrigger) (j : ℕ × ResolutionKind)
    → key_of tr ≡ j
    → All (λ b. key_of b.1 ≡ b.0) m
    → get m j ≡ none
    → All (λ u. key_of u ≢ key_of tr) (map (λ b. b.1) m)
apart_of [] tr j own h absent = tt
apart_of ((i, w) ∷ m) tr j own (h, hs) absent = elim (Bool-cases (i == j)) [
  | inl same ↦ absurd (ground arith)
  | inr other ↦ (
    (λ e. absurd (
        ground
          (arith, ((pair_eq {A = ℕ} {B = ResolutionKind}).equals_iff i j).1 (sym h ∙ e ∙ own)))),
    apart_of m tr j own hs (ground arith),
  )
]

all_apart : (m : Groups) → All (λ b. key_of b.1 ≡ b.0) m → IsMap m → AreApart (map (λ b. b.1) m)
all_apart [] h u = tt
all_apart ((j, w) ∷ m) (h, hs) (n, u) = (apart_of m w j h hs n, all_apart m hs u)

-- The triggers are of pending settlements, one for each property and kind.
select_generation_triggers-AreApart :
    (ss : List PendingSettlement) (year : ℕ)
    → AreApart (select_generation_triggers ss year)
      × All (λ tr. Any (λ s. trigger_of s year ≡ tr) ss) (select_generation_triggers ss year)
unfolding select_generation_triggers
select_generation_triggers-AreApart ss year =
    let m = trigger_by_group [] ss year in
    let h = selected ss year in
    (
      all_apart m h.keyed h.once,
      All-map (λ tr. Any (λ s. trigger_of s year ≡ tr) ss) (λ b. b.1) m h.pending,
    )

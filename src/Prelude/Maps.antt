-- ===== src/Prelude/Maps.antt =====
-- A JavaScript `Map`: entries in the order in which their keys were first set.
use Prim.Native.Nat.{◌+◌, ◌≤◌}
use mathlib.Core.Path.{◌≡◌, refl, ap, ◌∙◌}
use mathlib.Core.Logic.{inl, inr, ◌≢◌}
use mathlib.Core.List.{List, [], ◌∷◌, ◌++◌, map}
use mathlib.Core.Option.{Option, none, some}
use native.Mathlib.Omega.{arith}
use slomp.Prelude.Tests.{if◌then◌else◌, is_some, Bool-cases}
use slomp.Prelude.Classes.{Eq, ◌==◌, beq_refl}
use slomp.Prelude.Lists.{length, includes, All, All-mono, Any}

module _ {ℓ κ} {K : Type ℓ} ⦃e : Eq K⦄ {V : Type κ} where
  abbrev pub get : List (K × V) → K → Option V
  get [] k = none
  get ((j, v) ∷ m) k = if j == k then some v else get m k

  -- A known key keeps its place.
  abbrev pub set : List (K × V) → K → V → List (K × V)
  set [] k v = (k, v) ∷ []
  set ((j, w) ∷ m) k v = if j == k then (j, v) ∷ m else (j, w) ∷ set m k v

  abbrev pub delete : List (K × V) → K → List (K × V)
  delete [] k = []
  delete ((j, w) ∷ m) k = if j == k then delete m k else (j, w) ∷ delete m k

  abbrev pub keys : List (K × V) → List K
  keys = map (λ b. b.0)

  abbrev pub values : List (K × V) → List V
  values = map (λ b. b.1)

  pub get-set :
      (m : List (K × V)) (k j : K) (v : V)
      → get (set m k v) j ≡ (if k == j then some v else get m j)
  get-set [] k j v = refl
  get-set ((i, w) ∷ m) k j v =
      ground (arith, e.equals_iff k j, e.equals_iff i k, e.equals_iff i j, get-set m k j v)

  pub get-set_self : (m : List (K × V)) (k : K) (v : V) → get (set m k v) k ≡ some v
  get-set_self m k v = ground (arith, get-set m k k v, beq_refl k)

  pub get-delete :
      (m : List (K × V)) (k j : K) → get (delete m k) j ≡ (if k == j then none else get m j)
  get-delete [] k j = ground arith
  get-delete ((i, w) ∷ m) k j =
      ground (arith, e.equals_iff k j, e.equals_iff i k, e.equals_iff i j, get-delete m k j)

  pub length-set-le : (m : List (K × V)) (k : K) (v : V) → length (set m k v) ≤ length m + 1
  length-set-le [] k v = omega arith
  length-set-le ((i, w) ∷ m) k v = ground (arith, length-set-le m k v)

  pub includes-keys : (m : List (K × V)) (k : K) → includes (keys m) k ≡ is_some (get m k)
  includes-keys [] k = refl
  includes-keys ((i, w) ∷ m) k = ground (arith, includes-keys m k)

  pub keys-set :
      (m : List (K × V)) (k : K) (v : V)
      → keys (set m k v) ≡ (if includes (keys m) k then keys m else keys m ++ k ∷ [])
  keys-set [] k v = refl
  keys-set ((i, w) ∷ m) k v = ground (arith, keys-set m k v)

  -- No key occurs twice.
  abbrev pub IsMap : List (K × V) → Type κ
  IsMap [] = Unit
  IsMap ((j, w) ∷ m) = (get m j ≡ none) × IsMap m

  pub set-IsMap : (m : List (K × V)) (k : K) (v : V) → IsMap m → IsMap (set m k v)
  set-IsMap [] k v h = (refl, tt)
  set-IsMap ((j, w) ∷ m) k v (n, h) = elim (Bool-cases (j == k)) [
    | inl same ↦ rw same (n, h)
    | inr other ↦
        rw other
          (ground (arith, get-set m k j v, e.equals_iff j k, e.equals_iff k j), set-IsMap m k v h)
  ]

  -- Every entry of a map is the one that its key finds.
  pub get_of_entries : (m : List (K × V)) → IsMap m → All (λ b. get m b.0 ≡ some b.1) m
  get_of_entries [] h = tt
  get_of_entries ((j, w) ∷ m) (n, h) = (
    ground (arith, beq_refl j),
    All-mono (λ b. get m b.0 ≡ some b.1) (λ b. get ((j, w) ∷ m) b.0 ≡ some b.1) m
        (λ b g. ground (arith, e.equals_iff j b.0, λ (q : j ≡ b.0). ap (get m) q))
        (get_of_entries m h),
  )

  pub Any-of_get : (m : List (K × V)) (k : K) → get m k ≢ none → Any (λ b. b.0 ≡ k) m
  Any-of_get [] k h = absurd (h refl)
  Any-of_get ((j, w) ∷ m) k h = ground (arith, e.equals_iff j k, Any-of_get m k)

  pub Any-map_of_get {μ} :
      {B : Type μ} (f : K × V → B) (g : B → K) (m : List (K × V)) (k : K)
      → ((b : K × V) → g (f b) ≡ b.0)
      → Any (λ b. b.0 ≡ k) m
      → Any (λ c. g c ≡ k) (map f m)
  Any-map_of_get f g ((j, w) ∷ m) k same (inl p) = inl (same (j, w) ∙ p)
  Any-map_of_get f g ((j, w) ∷ m) k same (inr q) = inr (Any-map_of_get f g m k same q)
  Any-map_of_get f g [] k same h = h

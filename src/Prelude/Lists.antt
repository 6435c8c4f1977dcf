-- ===== src/Prelude/Lists.antt =====
-- Lists measured by native numbers and searched by Boolean tests, under the library's names.
use Prim.Native.Nat.{ℕ, zero, suc, ◌+◌, ◌-◌, ◌≤◌}
use mathlib.Core.Path.{◌≡◌, refl, ap, subst}
use mathlib.Core.Bool.{Bool, true, false, ◌&&◌, ◌||◌}
use mathlib.Core.Logic.{◌⊎◌, ◌↔◌, inl, inr}
use mathlib.Core.List.{List, [], ◌∷◌, ◌++◌, map}
use mathlib.Core.Option.{Option, none, some}
use native.Mathlib.Omega.{arith}
use slomp.Prelude.Tests.{if◌then◌else◌, Bool-cases}
use slomp.Prelude.Classes.{Eq, ◌==◌}

module _ {ℓ} {A : Type ℓ} where
  abbrev pub length : List A → ℕ
  length [] = 0
  length (x ∷ xs) = suc (length xs)

  abbrev pub filter : (A → Bool) → List A → List A
  filter p [] = []
  filter p (x ∷ xs) = if p x then x ∷ filter p xs else filter p xs

  abbrev pub any : (A → Bool) → List A → Bool
  any p [] = false
  any p (x ∷ xs) = p x || any p xs

  abbrev pub all : (A → Bool) → List A → Bool
  all p [] = true
  all p (x ∷ xs) = p x && all p xs

  abbrev pub find : (A → Bool) → List A → Option A
  find p [] = none
  find p (x ∷ xs) = if p x then some x else find p xs

  abbrev pub take : ℕ → List A → List A
  take zero xs = []
  take (suc n) [] = []
  take (suc n) (x ∷ xs) = x ∷ take n xs

  abbrev pub drop : ℕ → List A → List A
  drop zero xs = xs
  drop (suc n) [] = []
  drop (suc n) (x ∷ xs) = drop n xs

  pub length-append : (xs ys : List A) → length (xs ++ ys) ≡ length xs + length ys
  length-append [] ys = omega arith
  length-append (x ∷ xs) ys = omega (arith, length-append xs ys)

  pub length-filter-le : (p : A → Bool) (xs : List A) → length (filter p xs) ≤ length xs
  length-filter-le p [] = omega arith
  length-filter-le p (x ∷ xs) = ground (arith, length-filter-le p xs)

  pub filter-append :
      (p : A → Bool) (xs ys : List A) → filter p (xs ++ ys) ≡ filter p xs ++ filter p ys
  filter-append p [] ys = refl
  filter-append p (x ∷ xs) ys = ground (arith, filter-append p xs ys)

  pub take-append-drop : (n : ℕ) (xs : List A) → take n xs ++ drop n xs ≡ xs
  take-append-drop zero xs = refl
  take-append-drop (suc n) [] = refl
  take-append-drop (suc n) (x ∷ xs) = ap (◌∷◌ x) (take-append-drop n xs)

  pub length-drop : (n : ℕ) (xs : List A) → length (drop n xs) ≡ length xs - n
  length-drop zero xs = omega arith
  length-drop (suc n) [] = omega arith
  length-drop (suc n) (x ∷ xs) = omega (arith, length-drop n xs)

module _ {ℓ κ} {A : Type ℓ} (P : A → Type κ) where
  -- Every element satisfies `P`.
  abbrev pub All : List A → Type κ
  All [] = Unit
  All (x ∷ xs) = P x × All xs

  -- Some element satisfies `P`.
  abbrev pub Any : List A → Type κ
  Any [] = Unit × ⊥
  Any (x ∷ xs) = P x ⊎ Any xs

-- A Boolean test over a list decides the predicate that it tests.
module _ {ℓ κ} {A : Type ℓ} (p : A → Bool) (P : A → Type κ) where
  pub any_iff : (xs : List A) → ((x : A) → (p x ≡ true) ↔ P x) → (any p xs ≡ true) ↔ Any P xs
  any_iff [] f = (λ h. absurd (ground arith), λ h. absurd h.1)
  any_iff (x ∷ xs) f = elim (Bool-cases (p x)) [
    | inl hit ↦ rw hit (λ h. inl ((f x).0 hit), λ h. refl)
    | inr miss ↦ rw miss (
      λ h. inr ((any_iff xs f).0 h),
      λ h. elim h [ inl q ↦ absurd (ground (arith, (f x).1 q)) | inr r ↦ (any_iff xs f).1 r ],
    )
  ]

  pub all_iff : (xs : List A) → ((x : A) → (p x ≡ true) ↔ P x) → (all p xs ≡ true) ↔ All P xs
  all_iff [] f = (λ h. tt, λ h. refl)
  all_iff (x ∷ xs) f = elim (Bool-cases (p x)) [
    | inl hit ↦ rw hit (λ h. ((f x).0 hit, (all_iff xs f).0 h), λ h. (all_iff xs f).1 h.1)
    | inr miss ↦ rw miss (λ h. absurd (ground arith), λ h. absurd (ground (arith, (f x).1 h.0)))
  ]

pub Any-append_iff {ℓ κ} :
    {A : Type ℓ} (P : A → Type κ) (xs ys : List A) → Any P (xs ++ ys) ↔ (Any P xs ⊎ Any P ys)
Any-append_iff P [] ys = (λ h. inr h, λ h. elim h [ inl n ↦ absurd n.1 | inr q ↦ q ])
Any-append_iff P (x ∷ xs) ys = (
  λ h. elim h [
    | inl p ↦ inl (inl p)
    | inr q ↦ elim ((Any-append_iff P xs ys).0 q) [ inl a ↦ inl (inr a) | inr b ↦ inr b ]
  ],
  λ h. elim h [
    | inl (inl p) ↦ inl p
    | inl (inr a) ↦ inr ((Any-append_iff P xs ys).1 (inl a))
    | inr b ↦ inr ((Any-append_iff P xs ys).1 (inr b))
  ],
)

-- Every element is related to each one after it.
abbrev pub Pairwise {ℓ κ} : {A : Type ℓ} → (A → A → Type κ) → List A → Type κ
Pairwise R [] = Unit
Pairwise R (x ∷ xs) = All (R x) xs × Pairwise R xs

module _ {ℓ κ} {A : Type ℓ} (P : A → Type κ) where
  pub All-append : (xs ys : List A) → All P xs → All P ys → All P (xs ++ ys)
  All-append [] ys h k = k
  All-append (x ∷ xs) ys (p, h) k = (p, All-append xs ys h k)

  pub All-filter : (p : A → Bool) (xs : List A) → All P xs → All P (filter p xs)
  All-filter p [] h = tt
  All-filter p (x ∷ xs) (q, h) = ground (arith, All-filter p xs h)

  -- What is kept by `filter` passed the test.
  pub All-filter_of_test :
      (p : A → Bool) (xs : List A) → ((a : A) → p a ≡ true → P a) → All P (filter p xs)
  All-filter_of_test p [] h = tt
  All-filter_of_test p (x ∷ xs) h = ground (arith, h x, All-filter_of_test p xs h)

  pub All_of_all : (xs : List A) → ((a : A) → P a) → All P xs
  All_of_all [] f = tt
  All_of_all (x ∷ xs) f = (f x, All_of_all xs f)

pub All-mono {ℓ κ μ} :
    {A : Type ℓ} (P : A → Type κ) (Q : A → Type μ) (xs : List A)
    → ((a : A) → P a → Q a)
    → All P xs
    → All Q xs
All-mono P Q [] f h = tt
All-mono P Q (x ∷ xs) f (p, h) = (f x p, All-mono P Q xs f h)

pub All-both {ℓ κ μ ν} :
    {A : Type ℓ} (P : A → Type κ) (Q : A → Type μ) (R : A → Type ν) (xs : List A)
    → ((a : A) → P a → Q a → R a)
    → All P xs
    → All Q xs
    → All R xs
All-both P Q R [] f h k = tt
All-both P Q R (x ∷ xs) f (p, h) (q, k) = (f x p q, All-both P Q R xs f h k)

pub Pairwise-filter {ℓ κ} :
    {A : Type ℓ} (R : A → A → Type κ) (p : A → Bool) (xs : List A)
    → Pairwise R xs
    → Pairwise R (filter p xs)
Pairwise-filter R p [] h = tt
Pairwise-filter R p (x ∷ xs) (h, hs) =
    ground (arith, Pairwise-filter R p xs hs, All-filter (R x) p xs h)

pub Pairwise-All {ℓ κ μ} :
    {A : Type ℓ} (R : A → A → Type κ) (P : A → Type μ) (xs : List A)
    → Pairwise R xs
    → All P xs
    → Pairwise (λ a b. R a b × P a × P b) xs
Pairwise-All R P [] h k = tt
Pairwise-All R P (x ∷ xs) (h, hs) (p, ps) = (
  All-both (R x) P (λ b. R x b × P x × P b) xs (λ b q r. (q, p, r)) h ps,
  Pairwise-All R P xs hs ps,
)

pub Pairwise-append {ℓ κ} :
    {A : Type ℓ} (R : A → A → Type κ) (xs ys : List A)
    → Pairwise R xs
    → Pairwise R ys
    → All (λ x. All (R x) ys) xs
    → Pairwise R (xs ++ ys)
Pairwise-append R [] ys h k both = k
Pairwise-append R (x ∷ xs) ys (h, hs) k (b, bs) =
    (All-append (R x) xs ys h b, Pairwise-append R xs ys hs k bs)

-- Every element of a list is in it.
pub All_members {ℓ} : {A : Type ℓ} (xs : List A) → All (λ x. Any (λ y. y ≡ x) xs) xs
All_members [] = tt
All_members (x ∷ xs) = (
  inl refl,
  All-mono (λ z. Any (λ y. y ≡ z) xs) (λ z. Any (λ y. y ≡ z) (x ∷ xs)) xs (λ z m. inr m)
      (All_members xs),
)

pub All_of_member {ℓ κ} :
    {A : Type ℓ} (P : A → Type κ) (xs : List A) (a : A) → All P xs → Any (λ y. y ≡ a) xs → P a
All_of_member P [] a h m = absurd m.1
All_of_member P (x ∷ xs) a (p, h) (inl e) = subst P e p
All_of_member P (x ∷ xs) a (p, h) (inr m) = All_of_member P xs a h m

pub Any-filter {ℓ κ} :
    {A : Type ℓ} (P : A → Type κ) (p : A → Bool) (xs : List A)
    → ((x : A) → P x → p x ≡ true)
    → Any P xs
    → Any P (filter p xs)
Any-filter P p [] f h = absurd h.1
Any-filter P p (x ∷ xs) f (inl q) = rw (f x q) (inl q)
Any-filter P p (x ∷ xs) f (inr r) = elim (Bool-cases (p x)) [
  | inl hit ↦ rw hit (inr (Any-filter P p xs f r))
  | inr miss ↦ rw miss (Any-filter P p xs f r)
]

pub Any-mono {ℓ κ μ} :
    {A : Type ℓ} (P : A → Type κ) (Q : A → Type μ) (xs : List A)
    → ((a : A) → P a → Q a)
    → Any P xs
    → Any Q xs
Any-mono P Q [] f h = absurd h.1
Any-mono P Q (x ∷ xs) f (inl p) = inl (f x p)
Any-mono P Q (x ∷ xs) f (inr q) = inr (Any-mono P Q xs f q)

pub Any_with_All {ℓ κ μ} :
    {A : Type ℓ} (P : A → Type κ) (Q : A → Type μ) (xs : List A)
    → All P xs
    → Any Q xs
    → (a : A) × P a × Q a
Any_with_All P Q [] h k = absurd k.1
Any_with_All P Q (x ∷ xs) (p, h) (inl q) = (x, p, q)
Any_with_All P Q (x ∷ xs) (p, h) (inr k) = Any_with_All P Q xs h k

pub Any-map {ℓ κ μ} :
    {A : Type ℓ} {B : Type κ} (P : B → Type μ) (f : A → B) (xs : List A)
    → Any (λ a. P (f a)) xs
    → Any P (map f xs)
Any-map P f [] h = absurd h.1
Any-map P f (x ∷ xs) (inl p) = inl p
Any-map P f (x ∷ xs) (inr q) = inr (Any-map P f xs q)

pub Pairwise-mono {ℓ κ μ} :
    {A : Type ℓ} (R : A → A → Type κ) (S : A → A → Type μ) (xs : List A)
    → ((a b : A) → R a b → S a b)
    → Pairwise R xs
    → Pairwise S xs
Pairwise-mono R S [] f h = tt
Pairwise-mono R S (x ∷ xs) f (h, hs) = (All-mono (R x) (S x) xs (f x) h, Pairwise-mono R S xs f hs)

pub Pairwise-append_one {ℓ κ} :
    {A : Type ℓ} (R : A → A → Type κ) (xs : List A) (a : A)
    → Pairwise R xs
    → All (λ x. R x a) xs
    → Pairwise R (xs ++ a ∷ [])
Pairwise-append_one R [] a h k = (tt, tt)
Pairwise-append_one R (x ∷ xs) a (h, hs) (p, ps) =
    (All-append (R x) xs (a ∷ []) h (p, tt), Pairwise-append_one R xs a hs ps)

module _ {ℓ κ} {A : Type ℓ} {B : Type κ} where
  pub length-map : (f : A → B) (xs : List A) → length (map f xs) ≡ length xs
  length-map f [] = refl
  length-map f (x ∷ xs) = ap suc (length-map f xs)

  pub All-map {μ} :
      (P : B → Type μ) (f : A → B) (xs : List A) → All (λ a. P (f a)) xs → All P (map f xs)
  All-map P f [] h = tt
  All-map P f (x ∷ xs) (p, h) = (p, All-map P f xs h)

  pub Pairwise-map {μ ν} :
      (R : A → A → Type μ) (S : B → B → Type ν) (f : A → B) (xs : List A)
      → ((x y : A) → R x y → S (f x) (f y))
      → Pairwise R xs
      → Pairwise S (map f xs)
  Pairwise-map R S f [] g h = tt
  Pairwise-map R S f (x ∷ xs) g (h, hs) = (
    All-map (S (f x)) f xs (All-mono (R x) (λ y. S (f x) (f y)) xs (λ y q. g x y q) h),
    Pairwise-map R S f xs g hs,
  )

module _ {ℓ} {A : Type ℓ} ⦃e : Eq A⦄ where
  -- `xs.includes(a)`, and membership of a `Set` made from `xs`.
  abbrev pub includes : List A → A → Bool
  includes [] a = false
  includes (x ∷ xs) a = x == a || includes xs a

  pub includes-append :
      (xs ys : List A) (a : A) → includes (xs ++ ys) a ≡ (includes xs a || includes ys a)
  includes-append [] ys a = refl
  includes-append (x ∷ xs) ys a = ground (arith, includes-append xs ys a)

  pub includes-filter :
      (p : A → Bool) (xs : List A) (a : A) → includes (filter p xs) a ≡ (p a && includes xs a)
  includes-filter p [] a = ground arith
  includes-filter p (x ∷ xs) a =
      ground (arith, includes-filter p xs a, e.equals_iff x a, λ (q : x ≡ a). ap p q)

  -- `set.add(a)` on a `Set`, whose elements keep the order in which they were added.
  abbrev pub add : List A → A → List A
  add xs a = if includes xs a then xs else xs ++ a ∷ []

  abbrev pub set_from : List A → List A → List A
  set_from set [] = set
  set_from set (x ∷ xs) = set_from (add set x) xs

  pub includes-add : (xs : List A) (a b : A) → includes (add xs a) b ≡ (includes xs b || a == b)
  includes-add xs a b =
      ground
        (arith, includes-append xs (a ∷ []) b, e.equals_iff a b, λ (q : a ≡ b). ap (includes xs) q)

  pub includes-set_from :
      (set xs : List A) (b : A) → includes (set_from set xs) b ≡ (includes set b || includes xs b)
  includes-set_from set [] b = ground arith
  includes-set_from set (x ∷ xs) b =
      ground (arith, includes-set_from (add set x) xs b, includes-add set x b)

  pub includes-map_of_Any :
      {B : Type ℓ} (f : B → A) (xs : List B) (a : A)
      → Any (λ x. f x ≡ a) xs
      → includes (map f xs) a ≡ true
  includes-map_of_Any f [] a h = absurd h.1
  includes-map_of_Any f (x ∷ xs) a (inl q) = ground (arith, (e.equals_iff (f x) a).1 q)
  includes-map_of_Any f (x ∷ xs) a (inr r) = ground (arith, includes-map_of_Any f xs a r)

  pub Any_of_includes-map :
      {B : Type ℓ} (f : B → A) (xs : List B) (a : A)
      → includes (map f xs) a ≡ true
      → Any (λ x. f x ≡ a) xs
  Any_of_includes-map f [] a h = absurd (ground arith)
  Any_of_includes-map f (x ∷ xs) a h = elim (Bool-cases (f x == a)) [
    | inl hit ↦ inl ((e.equals_iff (f x) a).0 hit)
    | inr miss ↦ inr (Any_of_includes-map f xs a (rw miss at h))
  ]

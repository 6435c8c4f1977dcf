-- ===== src/Prelude/Sorting.antt =====
-- `xs.sort((a, b) => key(a) - key(b))`: a stable sort by a number, as insertion sort.
use Prim.Native.Nat.{ℕ, ◌≤◌, suc}
use mathlib.Core.Path.{◌≡◌, refl}
use mathlib.Core.Bool.{Bool, true, false}
use mathlib.Core.List.{List, [], ◌∷◌, Perm, map}
use mathlib.Core.List.Perm
use native.Mathlib.Omega.{arith}
use slomp.Prelude.Tests.{if◌then◌else◌, leb, Bool-cases}
use mathlib.Core.Logic.{◌⊎◌, inl, inr, ◌↔◌}
use slomp.Prelude.Lists.{length, All, Any, All-map, All-mono, Pairwise}

module _ {A : Type 0} (key : A → ℕ) where
  -- Before the first element with a larger or equal key: the insertions run from the right.
  abbrev pub insert_by : A → List A → List A
  insert_by a [] = a ∷ []
  insert_by a (x ∷ xs) = if leb (key a) (key x) then a ∷ x ∷ xs else x ∷ insert_by a xs

  abbrev pub sort_by : List A → List A
  sort_by [] = []
  sort_by (x ∷ xs) = insert_by x (sort_by xs)

  -- Every element is followed by larger or equal keys only.
  abbrev pub IsSorted : List A → Type 0
  IsSorted [] = Unit
  IsSorted (x ∷ xs) = All (λ y. key x ≤ key y) xs × IsSorted xs

  All-insert_by {κ} :
      (P : A → Type κ) (a : A) (xs : List A) → P a → All P xs → All P (insert_by a xs)
  All-insert_by P a [] p h = (p, tt)
  All-insert_by P a (x ∷ xs) p (q, h) = ground (arith, All-insert_by P a xs p h)

  All-le : (m n : ℕ) (xs : List A) → m ≤ n → All (λ y. n ≤ key y) xs → All (λ y. m ≤ key y) xs
  All-le m n [] l h = tt
  All-le m n (x ∷ xs) l (q, h) = (omega arith, All-le m n xs l h)

  insert_by-IsSorted : (a : A) (xs : List A) → IsSorted xs → IsSorted (insert_by a xs)
  insert_by-IsSorted a [] s = (tt, tt)
  insert_by-IsSorted a (x ∷ xs) (h, s) = ground (
    arith,
    insert_by-IsSorted a xs s,
    All-insert_by (λ y. key x ≤ key y) a xs,
    All-le (key a) (key x) xs,
  )

  pub sort_by-IsSorted : (xs : List A) → IsSorted (sort_by xs)
  sort_by-IsSorted [] = tt
  sort_by-IsSorted (x ∷ xs) = insert_by-IsSorted x (sort_by xs) (sort_by-IsSorted xs)

  insert_by-perm : (a : A) (xs : List A) → Perm (insert_by a xs) (a ∷ xs)
  insert_by-perm a [] = Perm.refl (a ∷ [])
  insert_by-perm a (x ∷ xs) = ground (
    arith,
    Perm.refl (a ∷ x ∷ xs),
    Perm.trans (Perm.cons x (insert_by-perm a xs)) (Perm.swap a x xs),
  )

  pub sort_by-perm : (xs : List A) → Perm (sort_by xs) xs
  sort_by-perm [] = Perm.nil
  sort_by-perm (x ∷ xs) = Perm.trans (insert_by-perm x (sort_by xs)) (Perm.cons x (sort_by-perm xs))

  pub All-sort_by {κ} : (P : A → Type κ) (xs : List A) → All P xs → All P (sort_by xs)
  All-sort_by P [] h = tt
  All-sort_by P (x ∷ xs) (p, h) = All-insert_by P x (sort_by xs) p (All-sort_by P xs h)

  Pairwise-insert_by {κ} :
      (R : A → A → Type κ) (a : A) (xs : List A)
      → ((x y : A) → R x y → R y x)
      → All (R a) xs
      → Pairwise R xs
      → Pairwise R (insert_by a xs)
  Pairwise-insert_by R a [] swap h p = (tt, tt)
  Pairwise-insert_by R a (x ∷ xs) swap (h, hs) (p, ps) = elim (Bool-cases (leb (key a) (key x))) [
    | inl first ↦ rw first ((h, hs), (p, ps))
    | inr later ↦
        rw later (All-insert_by (R x) a xs (swap a x h) p, Pairwise-insert_by R a xs swap hs ps)
  ]

  -- A symmetric relation between any two elements does not depend on their order.
  pub Pairwise-sort_by {κ} :
      (R : A → A → Type κ) (xs : List A)
      → ((x y : A) → R x y → R y x)
      → Pairwise R xs
      → Pairwise R (sort_by xs)
  Pairwise-sort_by R [] swap h = tt
  Pairwise-sort_by R (x ∷ xs) swap (h, hs) =
      Pairwise-insert_by R x (sort_by xs) swap (All-sort_by (R x) xs h)
        (Pairwise-sort_by R xs swap hs)

  All-of_insert_by {κ} :
      (P : A → Type κ) (a : A) (xs : List A) → All P (insert_by a xs) → P a × All P xs
  All-of_insert_by P a [] h = h
  All-of_insert_by P a (x ∷ xs) h = elim (Bool-cases (leb (key a) (key x))) [
    | inl first ↦ rw first at h
    | inr later ↦
        let (p, q) = rw later at h in let (r, rest) = All-of_insert_by P a xs q in (r, (p, rest))
  ]

  All-of_sort_by {κ} : (P : A → Type κ) (xs : List A) → All P (sort_by xs) → All P xs
  All-of_sort_by P [] h = tt
  All-of_sort_by P (x ∷ xs) h =
      let (p, q) = All-of_insert_by P x (sort_by xs) h in (p, All-of_sort_by P xs q)

  Pairwise-of_insert_by {κ} :
      (R : A → A → Type κ) (a : A) (xs : List A)
      → ((x y : A) → R x y → R y x)
      → Pairwise R (insert_by a xs)
      → All (R a) xs × Pairwise R xs
  Pairwise-of_insert_by R a [] swap h = h
  Pairwise-of_insert_by R a (x ∷ xs) swap h = elim (Bool-cases (leb (key a) (key x))) [
    | inl first ↦ rw first at h
    | inr later ↦
        let (p, q) = rw later at h in
        let (r, rest) = Pairwise-of_insert_by R a xs swap q in
        let (here, others) = All-of_insert_by (R x) a xs p in ((swap x a here, r), (others, rest))
  ]

  pub Pairwise-of_sort_by {κ} :
      (R : A → A → Type κ) (xs : List A)
      → ((x y : A) → R x y → R y x)
      → Pairwise R (sort_by xs)
      → Pairwise R xs
  Pairwise-of_sort_by R [] swap h = tt
  Pairwise-of_sort_by R (x ∷ xs) swap h =
      let (p, q) = Pairwise-of_insert_by R x (sort_by xs) swap h in
      (All-of_sort_by (R x) xs p, Pairwise-of_sort_by R xs swap q)

  length-insert_by : (a : A) (xs : List A) → length (insert_by a xs) ≡ suc (length xs)
  length-insert_by a [] = refl
  length-insert_by a (x ∷ xs) = ground (arith, length-insert_by a xs)

  pub length-sort_by : (xs : List A) → length (sort_by xs) ≡ length xs
  length-sort_by [] = refl
  length-sort_by (x ∷ xs) = omega (arith, length-insert_by x (sort_by xs), length-sort_by xs)

  Any-insert_by {κ} :
      (P : A → Type κ) (a : A) (xs : List A) → P a ⊎ Any P xs → Any P (insert_by a xs)
  Any-insert_by P a [] h = h
  Any-insert_by P a (x ∷ xs) h = elim (Bool-cases (leb (key a) (key x))) [
    | inl first ↦ rw first h
    | inr later ↦ rw later (elim h [
      | inl p ↦ inr (Any-insert_by P a xs (inl p))
      | inr (inl q) ↦ inl q
      | inr (inr q) ↦ inr (Any-insert_by P a xs (inr q))
    ])
  ]

  pub Any-sort_by {κ} : (P : A → Type κ) (xs : List A) → Any P xs → Any P (sort_by xs)
  Any-sort_by P [] h = h
  Any-sort_by P (x ∷ xs) (inl p) = Any-insert_by P x (sort_by xs) (inl p)
  Any-sort_by P (x ∷ xs) (inr q) = Any-insert_by P x (sort_by xs) (inr (Any-sort_by P xs q))

pub IsSorted-map :
    {A B : Type 0} (f : A → B) (key : B → ℕ) (xs : List A)
    → IsSorted (λ a. key (f a)) xs
    → IsSorted key (map f xs)
IsSorted-map f key [] s = tt
IsSorted-map f key (x ∷ xs) (h, s) =
    (All-map (λ b. key (f x) ≤ key b) f xs h, IsSorted-map f key xs s)

-- `xs.sort(compare)` with `le a b` for `compare(a, b) <= 0`.
module _ {A : Type 0} (le : A → A → Bool) where
  abbrev pub insert_with : A → List A → List A
  insert_with a [] = a ∷ []
  insert_with a (x ∷ xs) = if le a x then a ∷ x ∷ xs else x ∷ insert_with a xs

  abbrev pub sort_with : List A → List A
  sort_with [] = []
  sort_with (x ∷ xs) = insert_with x (sort_with xs)

  All-insert_with {κ} :
      (P : A → Type κ) (a : A) (xs : List A) → P a → All P xs → All P (insert_with a xs)
  All-insert_with P a [] p h = (p, tt)
  All-insert_with P a (x ∷ xs) p (q, h) = ground (arith, All-insert_with P a xs p h)

  pub All-sort_with {κ} : (P : A → Type κ) (xs : List A) → All P xs → All P (sort_with xs)
  All-sort_with P [] h = tt
  All-sort_with P (x ∷ xs) (p, h) = All-insert_with P x (sort_with xs) p (All-sort_with P xs h)

  Any-insert_with_iff {κ} :
      (P : A → Type κ) (a : A) (xs : List A) → Any P (insert_with a xs) ↔ (P a ⊎ Any P xs)
  Any-insert_with_iff P a [] = (λ h. h, λ h. h)
  Any-insert_with_iff P a (x ∷ xs) = elim (Bool-cases (le a x)) [
    | inl first ↦ rw first (λ h. h, λ h. h)
    | inr later ↦ rw later (
      λ h. elim h [
        | inl q ↦ inr (inl q)
        | inr r ↦ elim ((Any-insert_with_iff P a xs).0 r) [ inl p ↦ inl p | inr q ↦ inr (inr q) ]
      ],
      λ h. elim h [
        | inl p ↦ inr ((Any-insert_with_iff P a xs).1 (inl p))
        | inr (inl q) ↦ inl q
        | inr (inr q) ↦ inr ((Any-insert_with_iff P a xs).1 (inr q))
      ],
    )
  ]

  pub Any-sort_with_iff {κ} : (P : A → Type κ) (xs : List A) → Any P (sort_with xs) ↔ Any P xs
  Any-sort_with_iff P [] = (λ h. h, λ h. h)
  Any-sort_with_iff P (x ∷ xs) = (
    λ h. elim ((Any-insert_with_iff P x (sort_with xs)).0 h) [
      | inl p ↦ inl p
      | inr q ↦ inr ((Any-sort_with_iff P xs).0 q)
    ],
    λ h.
        (Any-insert_with_iff P x (sort_with xs)).1
          (elim h [ inl p ↦ inl p | inr q ↦ inr ((Any-sort_with_iff P xs).1 q) ]),
  )

  Pairwise-insert_with {κ} :
      (R : A → A → Type κ) (a : A) (xs : List A)
      → ((x y : A) → R x y → R y x)
      → All (R a) xs
      → Pairwise R xs
      → Pairwise R (insert_with a xs)
  Pairwise-insert_with R a [] swap h p = (tt, tt)
  Pairwise-insert_with R a (x ∷ xs) swap (h, hs) (p, ps) = elim (Bool-cases (le a x)) [
    | inl first ↦ rw first ((h, hs), (p, ps))
    | inr later ↦
        rw later (All-insert_with (R x) a xs (swap a x h) p, Pairwise-insert_with R a xs swap hs ps)
  ]

  pub Pairwise-sort_with {κ} :
      (R : A → A → Type κ) (xs : List A)
      → ((x y : A) → R x y → R y x)
      → Pairwise R xs
      → Pairwise R (sort_with xs)
  Pairwise-sort_with R [] swap h = tt
  Pairwise-sort_with R (x ∷ xs) swap (h, hs) =
      Pairwise-insert_with R x (sort_with xs) swap (All-sort_with (R x) xs h)
        (Pairwise-sort_with R xs swap hs)

  -- No element comes after one that it has to stand before.
  abbrev pub IsInOrder : List A → Type 0
  IsInOrder = Pairwise (λ a b. le a b ≡ true)

  module _ (total : (a b : A) → le a b ≡ false → le b a ≡ true)
      (trans : (a b c : A) → le a b ≡ true → le b c ≡ true → le a c ≡ true) where
    insert_with-IsInOrder : (a : A) (xs : List A) → IsInOrder xs → IsInOrder (insert_with a xs)
    insert_with-IsInOrder a [] h = (tt, tt)
    insert_with-IsInOrder a (x ∷ xs) (h, hs) = elim (Bool-cases (le a x)) [
      | inl first ↦ rw first (
        (
          first,
          All-mono (λ y. le x y ≡ true) (λ y. le a y ≡ true) xs (λ y q. trans a x y first q) h,
        ),
        (h, hs),
      )
      | inr later ↦ rw later (
        All-insert_with (λ y. le x y ≡ true) a xs (total a x later) h,
        insert_with-IsInOrder a xs hs,
      )
    ]

    pub sort_with-IsInOrder : (xs : List A) → IsInOrder (sort_with xs)
    sort_with-IsInOrder [] = tt
    sort_with-IsInOrder (x ∷ xs) = insert_with-IsInOrder x (sort_with xs) (sort_with-IsInOrder xs)

-- ===== src/Prelude/Texts.antt =====
-- Texts as lists of UTF-16 units, the unit of JavaScript's string indexes, with its `slice`,
-- `indexOf`, `startsWith` and `trim`.
use slomp.Prelude.{
  ℕ, zero, suc, ◌-◌, ◌≤◌, ◌≡◌, refl, sym, ap, ◌∙◌, Bool, true, false, ◌&&◌, ◌||◌, Option, none,
  some, List, [], ◌∷◌, ◌++◌, if◌then◌else◌, ◌==◌, nat_eq, Eq, leb, length, take, drop, arith,
  Bool-cases, inl, inr, min, includes,
}
use native.Mathlib.Numerals.{unary_clauses}

abbrev pub Text : Type 0
Text = List ℕ

-- The characters of `/\s/`, which `trim` removes.
abbrev pub white_space : List ℕ
white_space = 32 ∷ 160 ∷ 5760 ∷ 8232 ∷ 8233 ∷ 8239 ∷ 8287 ∷ 12288 ∷ 65279 ∷ []

unfoldable pub is_space : ℕ → Bool
is_space c = (leb 9 c && leb c 13) || (leb 8192 c && leb c 8202) || includes white_space c

module _ {ℓ} {A : Type ℓ} where
  -- The characters from `start` (included) to `end` (excluded).
  abbrev pub slice : ℕ → ℕ → List A → List A
  slice start end t = drop start (take end t)

  abbrev pub joined : List (List A) → List A
  joined [] = []
  joined (t ∷ ts) = t ++ joined ts

  abbrev pub reversed : List A → List A → List A
  reversed [] out = out
  reversed (x ∷ xs) out = reversed xs (x ∷ out)

module _ {A : Type 0} ⦃e : Eq A⦄ where
  abbrev pub index_of : List A → A → Option ℕ
  index_of [] c = none
  index_of (x ∷ xs) c =
      if x == c then some 0 else elim (index_of xs c) [ none ↦ none | some i ↦ some (suc i) ]

  abbrev pub starts_with : List A → List A → Bool
  starts_with t [] = true
  starts_with [] (p ∷ ps) = false
  starts_with (c ∷ t) (p ∷ ps) = c == p && starts_with t ps

unfoldable pub trim_start : Text → Text
unfolding is_space
trim_start [] = []
trim_start (c ∷ t) = if is_space c then trim_start t else c ∷ t

unfoldable pub trim : Text → Text
unfolding trim_start
trim t = reversed (trim_start (reversed (trim_start t) [])) []

module _ {ℓ} {A : Type ℓ} where
  take_zero : (xs : List A) → take 0 xs ≡ []
  take_zero [] = refl
  take_zero (x ∷ xs) = refl

  pub take-append :
      (n : ℕ) (xs ys : List A) → take n (xs ++ ys) ≡ take n xs ++ take (n - length xs) ys
  take-append zero xs ys =
      let e : 0 - length xs ≡ 0 = omega arith in
      rw (e, take_zero (xs ++ ys), take_zero xs, take_zero ys) refl
  take-append (suc n) [] ys = simp unary_clauses
  take-append (suc n) (x ∷ xs) ys = simp unary_clauses (ap (◌∷◌ x) (take-append n xs ys))

  pub drop-append :
      (n : ℕ) (xs ys : List A) → drop n (xs ++ ys) ≡ drop n xs ++ drop (n - length xs) ys
  drop-append zero xs ys = let e : 0 - length xs ≡ 0 = omega arith in rw e refl
  drop-append (suc n) [] ys = simp unary_clauses
  drop-append (suc n) (x ∷ xs) ys = simp unary_clauses (drop-append n xs ys)

  pub length-take : (n : ℕ) (xs : List A) → length (take n xs) ≡ min n (length xs)
  length-take zero xs = omega arith
  length-take (suc n) [] = omega arith
  length-take (suc n) (x ∷ xs) = omega (arith, length-take n xs)

  pub take_all : (n : ℕ) (xs : List A) → length xs ≤ n → take n xs ≡ xs
  take_all zero [] h = refl
  take_all zero (x ∷ xs) h = absurd (omega arith)
  take_all (suc n) [] h = refl
  take_all (suc n) (x ∷ xs) h = ap (◌∷◌ x) (take_all n xs (omega arith))

  pub take-min : (n : ℕ) (xs : List A) → take (min n (length xs)) xs ≡ take n xs
  take-min n xs = elim (Bool-cases (leb n (length xs))) [
    | inl short ↦ let e : min n (length xs) ≡ n = ground arith in ap (λ i. take i xs) e
    | inr long ↦
        let e : min n (length xs) ≡ length xs = ground arith in
        ap (λ i. take i xs) e
        ∙ take_all (length xs) xs (omega arith)
        ∙ sym (take_all n xs (ground arith))
  ]

  pub drop_all : (n : ℕ) (xs : List A) → length xs ≤ n → drop n xs ≡ []
  drop_all zero [] h = refl
  drop_all zero (x ∷ xs) h = absurd (omega arith)
  drop_all (suc n) [] h = refl
  drop_all (suc n) (x ∷ xs) h = drop_all n xs (omega arith)

  pub drop-min : (n : ℕ) (xs : List A) → drop (min n (length xs)) xs ≡ drop n xs
  drop-min n xs = elim (Bool-cases (leb n (length xs))) [
    | inl short ↦ let e : min n (length xs) ≡ n = ground arith in ap (λ i. drop i xs) e
    | inr long ↦
        let e : min n (length xs) ≡ length xs = ground arith in
        ap (λ i. drop i xs) e
        ∙ drop_all (length xs) xs (omega arith)
        ∙ sym (drop_all n xs (ground arith))
  ]

  pub slice_empty : (a b : ℕ) (xs : List A) → b ≤ a → slice a b xs ≡ []
  slice_empty a b xs h = drop_all a (take b xs) (omega (arith, length-take b xs))

  pub slice_past : (a b : ℕ) (xs : List A) → length xs ≤ a → slice a b xs ≡ []
  slice_past a b xs h = drop_all a (take b xs) (omega (arith, length-take b xs))

  drop-take_zero : (n : ℕ) (xs : List A) → drop n (take 0 xs) ≡ []
  drop-take_zero n xs = slice_empty n 0 xs (omega arith)

  pub slice-append :
      (a b : ℕ) (xs ys : List A)
      → slice a b (xs ++ ys) ≡ slice a b xs ++ slice (a - length xs) (b - length xs) ys
  slice-append a b xs ys =
      let split : slice a b (xs ++ ys)
          ≡ slice a b xs ++ drop (a - length (take b xs)) (take (b - length xs) ys) =
        ap (drop a) (take-append b xs ys) ∙ drop-append a (take b xs) (take (b - length xs) ys) in
      split ∙ elim (Bool-cases (leb b (length xs))) [
        | inl short ↦
            let e : b - length xs ≡ 0 = ground arith in
            rw (e, drop-take_zero (a - length (take b xs)) ys, drop-take_zero (a - length xs) ys)
              refl
        | inr long ↦
            let e : length (take b xs) ≡ length xs = ground (arith, length-take b xs) in rw e refl
      ]

  abbrev nothing : List A
  nothing = []

  -- Two neighbouring parts of a text.
  pub slice-join :
      (a b c : ℕ) (xs : List A) → a ≤ b → b ≤ c → slice a b xs ++ slice b c xs ≡ slice a c xs
  slice-join a b c [] h k =
      let past : (i j : ℕ) → slice i j nothing ≡ nothing =
        λ i j. slice_past i j nothing (omega arith) in
      rw (past a b, past b c, past a c) refl
  slice-join zero zero c (x ∷ xs) h k = refl
  slice-join zero (suc b) (suc c) (x ∷ xs) h k =
      ap (◌∷◌ x) (slice-join 0 b c xs (omega arith) (omega arith))
  slice-join (suc a) (suc b) (suc c) (x ∷ xs) h k = slice-join a b c xs (omega arith) (omega arith)
  slice-join zero (suc b) zero (x ∷ xs) h k = absurd (omega arith)
  slice-join (suc a) zero c (x ∷ xs) h k = absurd (omega arith)
  slice-join (suc a) (suc b) zero (x ∷ xs) h k = absurd (omega arith)

-- ===== src/Templates/Dom/Replaced.antt =====
-- Replacing a range of a paragraph replaces it in the paragraph's text, however the text is split.
use slomp.Prelude.{
  ℕ, ◌+◌, ◌-◌, ◌≤◌, ◌<◌, ◌≡◌, refl, sym, ap, ◌∙◌, Bool, true, false, ◌||◌, List, [], ◌∷◌, ◌++◌,
  if◌then◌else◌, ◌==◌, nat_eq, leb, length, take, drop, All, All-mono, Pairwise, arith, Bool-cases,
  inl, inr, ◌⊎◌, beq_refl, beq_sym, length-append,
}
use mathlib.Core.List.{append_assoc, append-nil}
use slomp.Prelude.Texts.{Text, take-append, drop-append, take_all, drop_all, drop-min}
use slomp.Templates.Dom.{
  NodeId, Store, text_of, set_text, is_touched, rewritten, replace_from, replace_range,
}

abbrev pub IsOther : NodeId → NodeId → Type 0
IsOther t u = (t == u) ≡ false

abbrev pub AreDistinct : List NodeId → Type 0
AreDistinct = Pairwise IsOther

-- A node outside the list keeps its text.
replace_from-other :
    (offset : ℕ) (written : Bool) (ts : List NodeId) (start end : ℕ) (r : Text) (s : Store)
    (u : NodeId)
    → All (λ t. (t == u) ≡ false) ts
    → (replace_from offset written ts start end r s).texts u ≡ s.texts u
unfolding replace_from
replace_from-other offset written [] start end r s u h = refl
replace_from-other offset written (t ∷ ts) start end r s u (h, hs) =
    let value = s.texts t in
    let touched = is_touched offset (length value) start end in
    let s' = if touched then set_text t (rewritten offset start end value written r) s else s in
    replace_from-other (offset + length value) (written || touched) ts start end r s' u hs
    ∙ elim (Bool-cases touched) [
      | inl yes_touched ↦ rw yes_touched (rw h refl)
      | inr untouched ↦ rw untouched refl
    ]

text_of-set_text :
    (t : NodeId) (text : Text) (s : Store) (ts : List NodeId)
    → All (IsOther t) ts
    → text_of (set_text t text s) ts ≡ text_of s ts
text_of-set_text t text s [] h = refl
text_of-set_text t text s (u ∷ ts) (h, hs) =
    rw h (ap (λ l. s.texts u ++ l) (text_of-set_text t text s ts hs))

-- The text after the loop, from the text before it.
abbrev after_loop : ℕ → Bool → ℕ → ℕ → Text → Text → Text
after_loop offset true start end r text = drop (end - offset) text
after_loop offset false start end r text =
    take (start - offset) text ++ (r ++ drop (end - offset) text)

drop_nothing : (n : ℕ) (v : Text) → (n ≡ 0) ⊎ (length v ≡ 0) → drop n v ≡ v
drop_nothing n v (inl e) = rw e refl
drop_nothing n [] (inr e) = drop_all n [] (omega arith)
drop_nothing n (c ∷ v) (inr e) = absurd (omega arith)

-- One node and the loop on the others give the text after the loop on all of them.
step_written :
    (o start end : ℕ) (r v rest : Text)
    → start < end
    → start ≤ o
    → (if is_touched o (length v) start end then rewritten o start end v true r else v)
        ++ drop (end - (o + length v)) rest
      ≡ drop (end - o) (v ++ rest)
step_written o start end r v rest lt le =
    let n = length v in
    let shift : end - (o + n) ≡ (end - o) - n = omega arith in
    let none_cut : start - o ≡ 0 = omega arith in
    rw (shift, drop-append (end - o) v rest)
      (elim (Bool-cases (is_touched o n start end)) [
        | inl touched ↦ rw (touched, none_cut, drop-min (end - o) v) refl
        | inr untouched ↦ rw untouched (
            ap (λ l. l ++ drop ((end - o) - n) rest)
              (sym (
                drop_nothing (end - o) v (elim (Bool-cases (leb end o)) [
                  | inl after ↦ inl (ground arith)
                  | inr reached ↦ inr (ground (arith, untouched))
                ]))))
      ])

step_unwritten :
    (o start end : ℕ) (r v rest : Text)
    → start < end
    → o ≤ start
    → (if is_touched o (length v) start end then rewritten o start end v false r else v)
        ++ after_loop (o + length v) (is_touched o (length v) start end) start end r rest
      ≡ take (start - o) (v ++ rest) ++ (r ++ drop (end - o) (v ++ rest))
step_unwritten o start end r v rest lt le =
    let n = length v in
    let shift_end : end - (o + n) ≡ (end - o) - n = omega arith in
    let shift_start : start - (o + n) ≡ (start - o) - n = omega arith in
    elim (Bool-cases (is_touched o n start end)) [
      | inl touched ↦
          let inside : (start - o) - n ≡ 0 = ground (arith, touched) in
          rw
            (
              touched,
              shift_end,
              take-append (start - o) v rest,
              drop-append (end - o) v rest,
              inside,
              drop-min (end - o) v,
            )
            (simp (append_assoc, append-nil))
      | inr untouched ↦
          let before : length v ≤ start - o = ground (arith, untouched) in
          rw
            (
              untouched,
              shift_end,
              shift_start,
              take-append (start - o) v rest,
              drop-append (end - o) v rest,
              take_all (start - o) v before,
              drop_all (end - o) v (omega arith),
            )
            (sym (append_assoc v (take ((start - o) - n) rest) (r ++ drop ((end - o) - n) rest)))
    ]

module _ (start end : ℕ) (r : Text) (lt : start < end) where
  -- What one node leaves for the others.
  abbrev next_store : ℕ → Bool → NodeId → Store → Store
  next_store o written t s =
      if is_touched o (length (s.texts t)) start end
      then set_text t (rewritten o start end (s.texts t) written r) s
      else s

  next_store-rest :
      (o : ℕ) (written : Bool) (t : NodeId) (s : Store) (ts : List NodeId)
      → All (IsOther t) ts
      → text_of (next_store o written t s) ts ≡ text_of s ts
  next_store-rest o written t s ts d =
      elim (Bool-cases (is_touched o (length (s.texts t)) start end)) [
        | inl touched ↦
            rw touched (text_of-set_text t (rewritten o start end (s.texts t) written r) s ts d)
        | inr untouched ↦ rw untouched refl
      ]

  next_store-here :
      (o : ℕ) (written : Bool) (t : NodeId) (s : Store)
      → (next_store o written t s).texts t ≡ (
          if is_touched o (length (s.texts t)) start end
          then rewritten o start end (s.texts t) written r
          else s.texts t)
  next_store-here o written t s = elim (Bool-cases (is_touched o (length (s.texts t)) start end)) [
    | inl touched ↦ rw touched (rw (beq_refl t) refl)
    | inr untouched ↦ rw untouched refl
  ]

  here_after :
      (o o' : ℕ) (written w : Bool) (t : NodeId) (s : Store) (ts : List NodeId)
      → All (IsOther t) ts
      → (replace_from o' w ts start end r (next_store o written t s)).texts t ≡ (
          if is_touched o (length (s.texts t)) start end
          then rewritten o start end (s.texts t) written r
          else s.texts t)
  here_after o o' written w t s ts d =
      replace_from-other o' w ts start end r (next_store o written t s) t
        (All-mono (IsOther t) (λ u. (u == t) ≡ false) ts (λ u h. beq_sym u t ∙ h) d)
      ∙ next_store-here o written t s

  replaced_written :
      (o : ℕ) (ts : List NodeId) (s : Store)
      → AreDistinct ts
      → start ≤ o
      → text_of (replace_from o true ts start end r s) ts ≡ drop (end - o) (text_of s ts)
  unfolding replace_from
  replaced_written o [] s d le = sym (drop_all (end - o) [] (omega arith))
  replaced_written o (t ∷ ts) s (d, ds) le =
      let v = s.texts t in
      let s' = next_store o true t s in
      let o' = o + length v in
      let later =
        replaced_written o' ts s' ds (omega arith)
        ∙ ap (drop (end - o')) (next_store-rest o true t s ts d) in
      rw (here_after o o' true true t s ts d, later)
        (step_written o start end r v (text_of s ts) lt le)

  replaced_unwritten :
      (o : ℕ) (ts : List NodeId) (s : Store)
      → AreDistinct ts
      → o ≤ start
      → start < o + length (text_of s ts)
      → text_of (replace_from o false ts start end r s) ts
        ≡ take (start - o) (text_of s ts) ++ (r ++ drop (end - o) (text_of s ts))
  unfolding replace_from
  replaced_unwritten o [] s d le within = absurd (omega arith)
  replaced_unwritten o (t ∷ ts) s (d, ds) le within =
      let v = s.texts t in
      let s' = next_store o false t s in
      let o' = o + length v in
      let touched = is_touched o (length v) start end in
      let rest = text_of s ts in
      let same = next_store-rest o false t s ts d in
      let later : text_of (replace_from o' touched ts start end r s') ts
          ≡ after_loop o' touched start end r rest =
        elim (Bool-cases touched) [
          | inl hit ↦ rw hit (
              rw hit at
                (replaced_written o' ts s' ds (ground (arith, hit)) ∙ ap (drop (end - o')) same))
          | inr miss ↦
              let before : o' ≤ start = ground (arith, miss) in
              let inside : start < o' + length (text_of s' ts) =
                omega (arith, length-append v rest, ap length same) in
              rw miss (
                rw miss at (
                  replaced_unwritten o' ts s' ds before inside
                  ∙ ap (λ x. take (start - o') x ++ (r ++ drop (end - o') x)) same))
        ] in
      rw (here_after o o' false touched t s ts d, later) (step_unwritten o start end r v rest lt le)

-- The text of a paragraph whose range is replaced is the text before the range, the replacement and
-- the text after it, whatever nodes its text is split in, where the range is not empty and starts
-- within the text, and no node stands twice; every node outside the paragraph keeps its text.
pub replace_range-text :
    (ts : List NodeId) (start end : ℕ) (r : Text) (s : Store)
    → AreDistinct ts
    → start < end
    → start < length (text_of s ts)
    → (text_of (replace_range ts start end r s) ts
        ≡ take start (text_of s ts) ++ (r ++ drop end (text_of s ts)))
      × ((u : NodeId)
          → All (λ t. (t == u) ≡ false) ts
          → (replace_range ts start end r s).texts u ≡ s.texts u)
unfolding replace_range
replace_range-text ts start end r s d lt within =
    let whole : (n : ℕ) → n - 0 ≡ n = λ n. omega arith in
    (
      rw (whole start, whole end) at
          (replaced_unwritten start end r lt 0 ts s d (omega arith) (omega arith)),
      λ u h. replace_from-other 0 false ts start end r s u h,
    )

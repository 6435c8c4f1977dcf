-- ===== src/Templates/Dom/Substituted.antt =====
-- A text in which several ranges are replaced, from the last one to the first.
use slomp.Prelude.{ℕ, ◌-◌, ◌≤◌, ◌<◌, ◌≡◌, refl, List, [], ◌∷◌, ◌++◌, length, take, drop, All, arith}
use mathlib.Core.List.{append_assoc, append-nil}
use slomp.Prelude.Texts.{Text, take-append, drop-append}

pub record Replacement : Type 0 where
  pub start : ℕ
  pub end : ℕ
  pub text : Text

-- The description of the result: the text before a range, in which the earlier ranges are replaced,
-- the replacement, and the text after the range.
abbrev pub substituted : Text → List Replacement → Text
substituted text [] = text
substituted text (r ∷ rs) = substituted (take r.start text) rs ++ (r.text ++ drop r.end text)

abbrev pub IsRange : ℕ → Replacement → Type 0
IsRange size r = (r.start < r.end) × (r.end ≤ size)

-- Each range ends where the one before it in the list starts, or earlier.
abbrev pub Precedes : Replacement → Replacement → Type 0
Precedes later earlier = earlier.end ≤ later.start

pub substituted-append :
    (text more : Text) (rs : List Replacement)
    → All (IsRange (length text)) rs
    → substituted (text ++ more) rs ≡ substituted text rs ++ more
substituted-append text more [] h = refl
substituted-append text more (r ∷ rs) ((lt, le), hs) =
    let no_start : r.start - length text ≡ 0 = omega arith in
    let no_end : r.end - length text ≡ 0 = omega arith in
    rw (take-append r.start text more, drop-append r.end text more, no_start, no_end)
      (simp (append_assoc, append-nil))

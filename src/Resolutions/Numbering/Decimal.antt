-- ===== src/Resolutions/Numbering/Decimal.antt =====
-- Resolution and payment order numbers name their year and sequence.
use slomp.Prelude.{
  ℕ, zero, suc, ◌+◌, ◌-◌, ◌*◌, ◌/◌, ◌%◌, ◌≤◌, ◌<◌, ◌≡◌, refl, sym, ap, ◌∙◌, List, [], ◌∷◌, ◌++◌, ok,
  arith, length, All,
}
use slomp.Resolutions.Numbering.{digits, decimal, zeros, pad_start, format_resolution_number}

-- The number that a text of digits stands for, after `acc`.
read_from : ℕ → List ℕ → ℕ
read_from acc [] = acc
read_from acc (c ∷ cs) = read_from (acc * 10 + (c - b'0')) cs

read_from-digits :
    (fuel n : ℕ) (acc : List ℕ) → n < fuel → read_from 0 (digits fuel n acc) ≡ read_from n acc
unfolding read_from digits
read_from-digits zero n acc h = elim h [ ]
read_from-digits (suc fuel) n acc h = ground (
  arith,
  read_from-digits fuel (n / 10) ((b'0' + n % 10) ∷ acc),
  ap (λ k. read_from k acc) {x = n / 10 * 10 + (b'0' + n % 10 - b'0')} {y = n} (omega arith),
  ap (λ k. read_from k acc) {x = 0 * 10 + (b'0' + n - b'0')} {y = n} (omega arith),
)

read_from-zeros : (k : ℕ) (text : List ℕ) → read_from 0 (zeros k ++ text) ≡ read_from 0 text
unfolding read_from zeros
read_from-zeros zero text = refl
read_from-zeros (suc k) text = read_from-zeros k text

read_from-decimal : (n : ℕ) → read_from 0 (decimal n) ≡ n
unfolding decimal read_from
read_from-decimal n = read_from-digits (suc n) n [] (omega arith)

read_from-pad_start : (w : ℕ) (n : ℕ) → read_from 0 (pad_start w (decimal n)) ≡ n
unfolding pad_start
read_from-pad_start w n = read_from-zeros (w - length (decimal n)) (decimal n) ∙ read_from-decimal n

abbrev pub IsDigit : ℕ → Type 0
IsDigit c = (b'0' ≤ c) × (c ≤ b'9')

digits-IsDigit :
    (fuel n : ℕ) (acc : List ℕ) → n < fuel → All IsDigit acc → All IsDigit (digits fuel n acc)
unfolding digits
digits-IsDigit zero n acc h a = elim h [ ]
digits-IsDigit (suc fuel) n acc h a =
    ground (arith, digits-IsDigit fuel (n / 10) ((b'0' + n % 10) ∷ acc))

pub decimal-IsDigit : (n : ℕ) → All IsDigit (decimal n)
unfolding decimal
decimal-IsDigit n = digits-IsDigit (suc n) n [] (omega arith) tt

-- Texts of digits before the first dash are determined.
split_dash :
    (xs xs' ys ys' : List ℕ)
    → All IsDigit xs
    → All IsDigit xs'
    → xs ++ b'-' ∷ ys ≡ xs' ++ b'-' ∷ ys'
    → (xs ≡ xs') × (ys ≡ ys')
split_dash [] [] ys ys' h h' e = (refl, cc)
split_dash [] (x ∷ xs') ys ys' h h' e = absurd (ground arith)
split_dash (x ∷ xs) [] ys ys' h h' e = absurd (ground arith)
split_dash (x ∷ xs) (x' ∷ xs') ys ys' h h' e =
    let (same, rest) = split_dash xs xs' ys ys' h.1 h'.1 (cc) in (cc, rest)

-- Two numbers with the same text have the same year and the same sequence.
format_resolution_number-injective :
    (year year' sequence sequence' : ℕ) (text : List ℕ)
    → format_resolution_number year sequence ≡ ok text
    → format_resolution_number year' sequence' ≡ ok text
    → (year ≡ year') × (sequence ≡ sequence')
unfolding format_resolution_number
format_resolution_number-injective year year' sequence sequence' text h h' =
    let e : decimal year ++ b'-' ∷ pad_start 4 (decimal sequence)
        ≡ decimal year' ++ b'-' ∷ pad_start 4 (decimal sequence') =
      ground arith in
    let (y, s) =
      split_dash (decimal year) (decimal year') (pad_start 4 (decimal sequence))
        (pad_start 4 (decimal sequence')) (decimal-IsDigit year) (decimal-IsDigit year') e in
    (
      sym (read_from-decimal year) ∙ ap (read_from 0) y ∙ read_from-decimal year',
      sym (read_from-pad_start 4 sequence) ∙ ap (read_from 0) s ∙ read_from-pad_start 4 sequence',
    )

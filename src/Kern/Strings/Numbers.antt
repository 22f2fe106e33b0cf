-- ===== src/Kern/Strings/Numbers.antt =====
-- `strtol` on the digits of a number.
use sisop_mendez.Base.{
  All, Bool, List, [], arith, false, if◌then◌else◌, ltb, none, refl, some, suc, true, zero, ℕ, ◌%◌,
  ◌*◌, ◌++◌, ◌+◌, ◌-◌, ◌<◌, ◌==◌, ◌∷◌, ◌≡◌, ◌≢◌, ◌≤◌,
}
use sisop_mendez.Kern.Strings.{
  digit, digit_below, read_digits, skip_blanks, skip_prefix, skip_sign, strtol,
}
use sisop_mendez.Kern.Types.{slt, word}

-- The characters of the digits, and the number that they write behind `val`.
abbrev pub digit_char : ℕ → ℕ
digit_char d = if ltb d 10 then 48 + d else 87 + d

abbrev pub digit_chars : List ℕ → List ℕ
digit_chars [] = []
digit_chars (d ∷ ds) = digit_char d ∷ digit_chars ds

abbrev pub number : ℕ → ℕ → List ℕ → ℕ
number base val [] = val
number base val (d ∷ ds) = number base (val * base + d) ds

digit-char : (d : ℕ) → d < 36 → digit (digit_char d) ≡ some d
unfolding digit
digit-char d h = ground arith

pub times_le : (x base : ℕ) → 1 ≤ base → x ≤ x * base
times_le x zero h = absurd (omega arith)
times_le x (suc b) h = omega arith

le_number : (base val : ℕ) (ds : List ℕ) → 1 ≤ base → val ≤ number base val ds
le_number base val [] h = omega arith
le_number base val (d ∷ ds) h =
    omega (arith, times_le val base h, le_number base (val * base + d) ds h)

-- A number that fits 32 bits is read whole, up to the first byte that is no digit.
read_digits-number :
    (base val : ℕ) (ds : List ℕ) (stop : ℕ) (rest : List ℕ)
    → 2 ≤ base
    → base ≤ 36
    → All (λ d. d < base) ds
    → digit stop ≡ none
    → number base val ds < word
    → read_digits base val (digit_chars ds ++ stop ∷ rest) ≡ some (number base val ds, stop ∷ rest)
unfolding read_digits digit_below
read_digits-number base val [] stop rest h h' below ends fits = rw ends refl
read_digits-number base val (d ∷ ds) stop rest h h' (less, below) ends fits =
    let under : slt d base ≡ true = ground arith in
    let small : (val * base + d) % word ≡ val * base + d =
      omega (arith, le_number base (val * base + d) ds (omega arith)) in
    rw (digit-char d (omega arith), under, small)
      (read_digits-number base (val * base + d) ds stop rest h h' below ends fits)

first_digit :
    (d : ℕ)
    → d < 36
    → ((digit_char d == b' ') ≡ false)
      × ((digit_char d == 9) ≡ false)
      × ((digit_char d == b'+') ≡ false)
      × ((digit_char d == b'-') ≡ false)
first_digit d h = (ground arith, ground arith, ground arith, ground arith)

-- `strtol` with a base from 2 to 36, other than 16, on the digits of a number that fits 32 bits,
-- behind an optional minus: the number or its negation, and a pointer behind the digits.
pub strtol-digits :
    (neg : Bool) (base d : ℕ) (ds : List ℕ) (stop : ℕ) (rest : List ℕ)
    → 2 ≤ base
    → base ≤ 36
    → base ≢ 16
    → All (λ d. d < base) (d ∷ ds)
    → digit stop ≡ none
    → number base 0 (d ∷ ds) < word
    → strtol ((if neg then b'-' ∷ [] else []) ++ digit_chars (d ∷ ds) ++ stop ∷ rest) base
      ≡ some (
        if neg then (word - number base 0 (d ∷ ds)) % word else number base 0 (d ∷ ds),
        stop ∷ rest,
      )
unfolding strtol skip_blanks skip_sign skip_prefix mathlib.Core.Option.bind
strtol-digits true base d ds stop rest h h' other below ends fits =
    let zero' : (base == 0) ≡ false = ground arith in
    let hex : (base == 16) ≡ false = ground (arith, other) in
    rw (zero', hex, read_digits-number base 0 (d ∷ ds) stop rest h h' below ends fits) refl
strtol-digits false base d ds stop rest h h' other below ends fits =
    let (blank, tab, plus, minus) = first_digit d (omega (arith, below.0)) in
    let zero' : (base == 0) ≡ false = ground arith in
    let hex : (base == 16) ≡ false = ground (arith, other) in
    rw
      (
        blank,
        tab,
        plus,
        minus,
        zero',
        hex,
        read_digits-number base 0 (d ∷ ds) stop rest h h' below ends fits,
      )
      refl

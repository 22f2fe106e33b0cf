-- ===== src/Kern/Printing/Digits.antt =====
-- What `printnum` prints is read back by `strtol`.
use native.Mathlib.Nat.{div-add-mod, mod-eq_of_lt, mod-lt}
use sisop_mendez.Base.{
  All, Bool-cases, List, [], ap, arith, false, inl, inr, leb, none, refl, replicate, some, suc,
  zero, ℕ, ◌%◌, ◌*◌, ◌++◌, ◌+◌, ◌-◌, ◌/◌, ◌<◌, ◌^◌, ◌∙◌, ◌∷◌, ◌≡◌, ◌≤◌,
}
use sisop_mendez.Kern.Printing.{hex_digit, print_digits, printnum}
use sisop_mendez.Kern.Strings.{digit, skip_blanks, strtol}
use sisop_mendez.Kern.Strings.Numbers.{digit_char, digit_chars, number, strtol-digits, times_le}
use sisop_mendez.Kern.Types.{word}

-- A digit behind others.
number-append :
    (base val : ℕ) (ds : List ℕ) (e : ℕ)
    → number base val (ds ++ e ∷ []) ≡ number base val ds * base + e
number-append base val [] e = refl
number-append base val (d ∷ ds) e = number-append base (val * base + d) ds e

digit_chars-append :
    (ds : List ℕ) (e : ℕ) → digit_chars (ds ++ e ∷ []) ≡ digit_chars ds ++ digit_char e ∷ []
digit_chars-append [] e = refl
digit_chars-append (d ∷ ds) e = ap (λ t. digit_char d ∷ t) (digit_chars-append ds e)

hex-digit : (d : ℕ) → d < 16 → hex_digit d ≡ digit_char d
hex-digit d h = ground arith

All-append {ℓ} : (P : ℕ → Type ℓ) (ds : List ℕ) (e : ℕ) → All P ds → P e → All P (ds ++ e ∷ [])
All-append P [] e below last = (last, tt)
All-append P (d ∷ ds) e below last = (below.0, All-append P ds e below.1 last)

append_assoc : (xs ys zs : List ℕ) → (xs ++ ys) ++ zs ≡ xs ++ (ys ++ zs)
append_assoc [] ys zs = refl
append_assoc (x ∷ xs) ys zs = ap (λ t. x ∷ t) (append_assoc xs ys zs)

times_two : (x base : ℕ) → 2 ≤ base → x * 2 ≤ x * base
times_two x zero h = absurd (omega arith)
times_two x (suc b) h = omega (arith, times_le x b (omega arith))

-- A digit less to go.
shrinks : (n num base : ℕ) → 2 ≤ base → num < 2 ^ suc n → num / base < 2 ^ n
shrinks n num base two h = omega (arith, times_two (num / base) base two, div-add-mod num base, h)

positive : (n num : ℕ) → 2 ≤ num → num < 2 ^ suc n → 1 ≤ n
positive zero num h h' = absurd (omega arith)
positive (suc n) num h h' = omega arith

-- The text is padding and the digits of the number.
record Printed (base num padc : ℕ) (text : List ℕ) : Type 0 where
  pads : ℕ
  first : ℕ
  others : List ℕ
  is : text ≡ replicate pads padc ++ digit_chars (first ∷ others)
  below : All (λ d. d < base) (first ∷ others)
  value : number base 0 (first ∷ others) ≡ num

print_digits-Printed :
    (n num base width padc : ℕ)
    → 2 ≤ base
    → base ≤ 16
    → num < 2 ^ n
    → 1 ≤ n
    → Printed base num padc (print_digits n num base width padc)
unfolding print_digits
print_digits-Printed zero num base width padc two small h h' = absurd (omega arith)
print_digits-Printed (suc n) num base width padc two small h h' =
    let below : leb base num ≡ false → num < base = λ one. ground (arith, one) in
    elim (Bool-cases (leb base num)) [
      | inr one ↦
          (rw (one, mod-eq_of_lt (below one))
            (record {
              pads = width - 1;
              first = num;
              others = [];
              is = rw (hex-digit num (omega (arith, below one))) refl;
              below = (below one, tt);
              value = omega arith;
            }))
      | inl more ↦
          (let big : 2 ≤ num = ground (arith, more, two) in
            let rest =
              print_digits-Printed n (num / base) base (width - 1) padc two small
                (shrinks n num base two h) (positive n num big h) in
            let last : num % base < base = mod-lt num (omega arith) in
            rw more (record {
              pads = rest.pads;
              first = rest.first;
              others = rest.others ++ num % base ∷ [];
              is =
                  rw
                    (
                      rest.is,
                      hex-digit (num % base) (omega (arith, last)),
                      append_assoc (replicate rest.pads padc)
                          (digit_chars (rest.first ∷ rest.others)) (digit_char (num % base) ∷ []),
                      digit_chars-append rest.others (num % base),
                    )
                    refl;
              below = All-append _ (rest.first ∷ rest.others) (num % base) rest.below last;
              value =
                  number-append base 0 (rest.first ∷ rest.others) (num % base)
                  ∙ (rw rest.value (omega (arith, div-add-mod num base)));
            }))
    ]

skip_blanks-replicate : (k : ℕ) (s : List ℕ) → skip_blanks (replicate k b' ' ++ s) ≡ skip_blanks s
unfolding skip_blanks
skip_blanks-replicate zero s = refl
skip_blanks-replicate (suc k) s = skip_blanks-replicate k s

strtol-blanks :
    (k : ℕ) (s : List ℕ) (base : ℕ) → strtol (replicate k b' ' ++ s) base ≡ strtol s base
unfolding strtol
strtol-blanks k s base = rw (skip_blanks-replicate k s) refl

-- A number that fits 32 bits, printed in a base from 2 to 15 and padded with spaces to any width,
-- is read back by `strtol` in that base, up to the first byte behind it that is no digit.
pub printnum-strtol :
    (num base width stop : ℕ) (rest : List ℕ)
    → 2 ≤ base
    → base < 16
    → num < word
    → digit stop ≡ none
    → strtol (printnum num base width b' ' ++ stop ∷ rest) base ≡ some (num, stop ∷ rest)
printnum-strtol num base width stop rest two small fits ends =
    let r =
      print_digits-Printed 64 num base width b' ' two (omega arith) (omega arith) (omega arith) in
    let read : strtol (digit_chars (r.first ∷ r.others) ++ stop ∷ rest) base
        ≡ some (num, stop ∷ rest) =
      rw
        (
          strtol-digits false base r.first r.others stop rest two (omega arith) (omega arith)
              r.below ends (rw r.value fits),
          r.value,
        )
        refl in
    rw (r.is, append_assoc (replicate r.pads b' ') (digit_chars (r.first ∷ r.others)) (stop ∷ rest))
      (strtol-blanks r.pads (digit_chars (r.first ∷ r.others) ++ stop ∷ rest) base ∙ read)

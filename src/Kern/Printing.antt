-- ===== src/Kern/Printing.antt =====
-- Numbers and buffers of lib/printfmt.c: `printnum`, `sprintputch` and `vsnprintf`. Output is the
-- list of the characters given to `putch`; the format itself, `vprintfmt`, is not modelled.
pub mod Digits
pub mod Buffers
use sisop_mendez.Base.{
  List, Option, [], if◌then◌else◌, leb, ltb, none, replicate, set, some, suc, zero, ℕ, ◌%◌, ◌++◌,
  ◌+◌, ◌-◌, ◌/◌, ◌∷◌,
}
use sisop_mendez.Kern.Types.{slt, word}

-- `"0123456789abcdef"[i]`, for `i` below 16.
abbrev pub hex_digit : ℕ → ℕ
hex_digit i = if ltb i 10 then b'0' + i else b'a' + (i - 10)

-- `printnum` with `n` digits at most to go. A width below 1 pads nothing, as 0 does.
unfoldable pub print_digits : ℕ → ℕ → ℕ → ℕ → ℕ → List ℕ
print_digits zero num base width padc = []
print_digits (suc n) num base width padc =
    let front = print_digits n (num / base) base (width - 1) padc in
    (if leb base num then front else replicate (width - 1) padc) ++ hex_digit (num % base) ∷ []

-- A number of 64 bits has at most 64 digits in any base.
abbrev pub printnum : ℕ → ℕ → ℕ → ℕ → List ℕ
printnum num base width padc = print_digits 64 num base width padc

-- `struct sprintbuf`: the buffer, the place of `buf` in it and of `ebuf`, and the count.
pub record Sprintbuf : Type 0 where
  pub bytes : List ℕ
  pub buf : ℕ
  pub ebuf : ℕ
  pub cnt : ℕ

unfoldable pub sprintputch : ℕ → Sprintbuf → Sprintbuf
sprintputch ch b =
    let b' = record b { cnt = (b.cnt + 1) % word } in
    if ltb b.buf b.ebuf
    then record b' { bytes = set b.bytes b.buf (ch % 256); buf = b.buf + 1 }
    else b'

unfoldable pub put_all : List ℕ → Sprintbuf → Sprintbuf
put_all [] b = b
put_all (ch ∷ out) b = put_all out (sprintputch ch b)

-- `vsnprintf` to a buffer that is not NULL, of the characters that `vprintfmt` puts, for an `n` of
-- 1 or more; -E_INVAL otherwise. The buffer, and what is returned.
unfoldable pub vsnprintf : List ℕ → ℕ → List ℕ → Option (List ℕ × ℕ)
vsnprintf buf n out =
    if slt n 1
    then none
    else let b = put_all out (record { bytes = buf; buf = 0; ebuf = n - 1; cnt = 0 }) in
      some (set b.bytes b.buf 0, b.cnt)

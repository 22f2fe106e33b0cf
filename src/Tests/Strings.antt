-- ===== src/Tests/Strings.antt =====
-- The string functions of the kernel on short buffers.
use sisop_mendez.Base.{List, [], arith, none, refl, some, ℕ, ◌++◌, ◌∷◌, ◌≡◌}
use sisop_mendez.Kern.Memory.{Memory, copy_words_down, memmove, move_down, move_word, store}
use sisop_mendez.Kern.Memory.Moves.{memmove_lem}
use sisop_mendez.Kern.Printing.{print_digits, printnum, vsnprintf}
use sisop_mendez.Kern.Printing.Buffers.{vsnprintf_lem}
use sisop_mendez.Kern.Printing.Digits.{printnum-strtol}
use sisop_mendez.Kern.Strings.{digit, strtol}

abbrev hi : List ℕ
hi = b'h' ∷ b'i' ∷ []

stops : digit 0 ≡ none
unfolding digit
stops = refl

-- Each byte is its address.
abbrev addresses : Memory
addresses i = i

memmove_lem_example : memmove addresses 6 4 5 9 ≡ 7
memmove_lem_example = memmove_lem addresses 6 4 5 9 (omega arith) (omega arith)

-- Aligned ranges that overlap are copied by words, from the last.
memmove_lem_words : memmove addresses 12 8 8 18 ≡ 14
unfolding memmove move_down copy_words_down move_word store
memmove_lem_words = refl

printnum-strtol_example : strtol (printnum 2024 10 7 b' ' ++ 0 ∷ []) 10 ≡ some (2024, 0 ∷ [])
printnum-strtol_example =
    printnum-strtol 2024 10 7 0 [] (omega arith) (omega arith) (omega arith) stops

-- "%-5d" pads with minus signs on the left, and a sign stands in front of the padding.
printnum-strtol_run : printnum 7 10 5 b'-' ≡ b'-' ∷ b'-' ∷ b'-' ∷ b'-' ∷ b'7' ∷ []
unfolding print_digits
printnum-strtol_run = refl

vsnprintf_lem_example :
    vsnprintf (1 ∷ 2 ∷ 3 ∷ 4 ∷ []) 3 (b'a' ∷ b'b' ∷ b'c' ∷ []) ≡ some (b'a' ∷ b'b' ∷ 0 ∷ 4 ∷ [], 3)
vsnprintf_lem_example =
    vsnprintf_lem (1 ∷ 2 ∷ 3 ∷ 4 ∷ []) (b'a' ∷ b'b' ∷ b'c' ∷ []) 2 (omega arith) (omega arith)
      (omega arith)

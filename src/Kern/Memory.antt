-- ===== src/Kern/Memory.antt =====
-- `memset`, `memmove` and `memcpy` of lib/string.c. The memory is one function from addresses to
-- bytes; pointers are of 32 bits and wrap around.
pub mod Moves
pub mod Fills
use sisop_mendez.Base.{
  Bool, if◌then◌else◌, ltb, suc, zero, ℕ, ◌%◌, ◌&&◌, ◌*◌, ◌+◌, ◌-◌, ◌/◌, ◌==◌, ◌^◌,
}
use sisop_mendez.Kern.Types.{word}

abbrev pub Memory : Type 0
Memory = ℕ → ℕ

unfoldable pub store : Memory → ℕ → ℕ → Memory
store mem a b i = if a == i then b else mem i

-- A pointer `k` bytes further, and `k` bytes back.
abbrev pub forth : ℕ → ℕ → ℕ
forth p k = (p + k) % word

abbrev pub back : ℕ → ℕ → ℕ
back p k = (p + word - k) % word

-- `rep stosb`
unfoldable pub set_bytes : Memory → ℕ → ℕ → ℕ → Memory
set_bytes mem v c zero = mem
set_bytes mem v c (suc n) = set_bytes (store mem v (c % 256)) (forth v 1) c n

-- `stosl`: the bytes of a word, the lowest first.
unfoldable pub store_word : Memory → ℕ → ℕ → Memory
store_word mem v w =
    store
      (store (store (store mem v (w % 256)) (v + 1) (w / 2 ^ 8 % 256)) (v + 2) (w / 2 ^ 16 % 256))
      (v + 3) (w / 2 ^ 24 % 256)

-- `rep stosl`
unfoldable pub set_words : Memory → ℕ → ℕ → ℕ → Memory
set_words mem v w zero = mem
set_words mem v w (suc n) = set_words (store_word mem v w) (forth v 4) w n

-- `(c << 24) | (c << 16) | (c << 8) | c` of the low byte.
abbrev pub spread : ℕ → ℕ
spread c = let b = c % 256 in b * 2 ^ 24 + b * 2 ^ 16 + b * 2 ^ 8 + b

unfoldable pub memset : Memory → ℕ → ℕ → ℕ → Memory
memset mem v c n =
    if n == 0
    then mem
    else if v % 4 == 0 && n % 4 == 0
    then set_words mem v (spread c) (n / 4)
    else set_bytes mem v c n

-- `cld; rep movsb`
unfoldable pub copy_up : Memory → ℕ → ℕ → ℕ → Memory
copy_up mem d s zero = mem
copy_up mem d s (suc n) = copy_up (store mem d (mem s)) (forth d 1) (forth s 1) n

-- `std; rep movsb`
unfoldable pub copy_down : Memory → ℕ → ℕ → ℕ → Memory
copy_down mem d s zero = mem
copy_down mem d s (suc n) = copy_down (store mem d (mem s)) (back d 1) (back s 1) n

-- `movsl`: four bytes are read, then stored.
unfoldable pub move_word : Memory → ℕ → ℕ → Memory
move_word mem d s =
    store (store (store (store mem d (mem s)) (d + 1) (mem (s + 1))) (d + 2) (mem (s + 2))) (d + 3)
      (mem (s + 3))

-- `cld; rep movsl`
unfoldable pub copy_words_up : Memory → ℕ → ℕ → ℕ → Memory
copy_words_up mem d s zero = mem
copy_words_up mem d s (suc n) = copy_words_up (move_word mem d s) (forth d 4) (forth s 4) n

-- `std; rep movsl`
unfoldable pub copy_words_down : Memory → ℕ → ℕ → ℕ → Memory
copy_words_down mem d s zero = mem
copy_words_down mem d s (suc n) = copy_words_down (move_word mem d s) (back d 4) (back s 4) n

-- `(int) s % 4 == 0 && (int) d % 4 == 0 && n % 4 == 0`
abbrev pub is_aligned : ℕ → ℕ → ℕ → Bool
is_aligned s d n = s % 4 == 0 && (d % 4 == 0 && n % 4 == 0)

-- The copy downwards, with `s` and `d` behind the ranges, and the one upwards.
unfoldable pub move_down : Memory → ℕ → ℕ → ℕ → Memory
move_down mem d s n =
    if is_aligned s d n
    then copy_words_down mem (back d 4) (back s 4) (n / 4)
    else copy_down mem (back d 1) (back s 1) n

unfoldable pub move_up : Memory → ℕ → ℕ → ℕ → Memory
move_up mem d s n = if is_aligned s d n then copy_words_up mem d s (n / 4) else copy_up mem d s n

unfoldable pub memmove : Memory → ℕ → ℕ → ℕ → Memory
memmove mem dst src n =
    if ltb src dst && ltb dst (forth src n)
    then move_down mem (forth dst n) (forth src n) n
    else move_up mem dst src n

abbrev pub memcpy : Memory → ℕ → ℕ → ℕ → Memory
memcpy mem dst src n = memmove mem dst src n

-- ===== src/Kern/Memory/Fills.antt =====
-- What `memset` leaves.
use mathlib.Core.Path.{fun_ext}
use sisop_mendez.Base.{
  Bool-cases, ap, arith, if◌then◌else◌, inl, inr, leb, ltb, suc, true, zero, ℕ, ◌%◌, ◌&&◌, ◌*◌, ◌+◌,
  ◌/◌, ◌<◌, ◌==◌, ◌^◌, ◌∙◌, ◌≡◌,
}
use sisop_mendez.Kern.Memory.{
  Memory, forth, memset, set_bytes, set_words, spread, store, store_word,
}
use sisop_mendez.Kern.Types.{word}

-- The `n` bytes from `v` are `b`, and all else is as it was.
abbrev pub filled : Memory → ℕ → ℕ → ℕ → Memory
filled mem v b n x = if leb v x && ltb x (v + n) then b else mem x

byte-step :
    (mem : Memory) (v b n x : ℕ) → filled (store mem v b) (v + 1) b n x ≡ filled mem v b (suc n) x
unfolding store
byte-step mem v b n x = grind arith

set_bytes-filled :
    (mem : Memory) (v c n x : ℕ) → v + n < word → set_bytes mem v c n x ≡ filled mem v (c % 256) n x
unfolding set_bytes
set_bytes-filled mem v c zero x h = ground arith
set_bytes-filled mem v c (suc n) x h =
    let v' : forth v 1 ≡ v + 1 = omega arith in
    rw v' (
      set_bytes-filled (store mem v (c % 256)) (v + 1) c n x (omega arith)
      ∙ byte-step mem v (c % 256) n x)

-- The four bytes of a spread byte.
store_word-filled :
    (mem : Memory) (v c x : ℕ) → store_word mem v (spread c) x ≡ filled mem v (c % 256) 4 x
unfolding store_word store
store_word-filled mem v c x =
    let b = c % 256 in
    let one : spread c / 2 ^ 8 % 256 ≡ b = omega arith in
    let two : spread c / 2 ^ 16 % 256 ≡ b = omega arith in
    let three : spread c / 2 ^ 24 % 256 ≡ b = omega arith in
    let none' : spread c % 256 ≡ b = omega arith in rw (one, two, three, none') (grind arith)

word-step :
    (mem : Memory) (v b n x : ℕ)
    → filled (filled mem v b 4) (v + 4) b n x ≡ filled mem v b (4 + n) x
word-step mem v b n x = grind arith

set_words-filled :
    (mem : Memory) (v c n x : ℕ)
    → v + 4 * n < word
    → set_words mem v (spread c) n x ≡ filled mem v (c % 256) (4 * n) x
unfolding set_words
set_words-filled mem v c zero x h = ground arith
set_words-filled mem v c (suc n) x h =
    let v' : forth v 4 ≡ v + 4 = omega arith in
    let four : 4 * suc n ≡ 4 + 4 * n = omega arith in
    rw (v', four)
      (set_words-filled (store_word mem v (spread c)) (v + 4) c n x (omega arith)
        ∙ ap (λ m. filled m (v + 4) (c % 256) (4 * n) x) (fun_ext (store_word-filled mem v c))
        ∙ word-step mem v (c % 256) (4 * n) x)

-- A range that ends below 2^32 is filled with the low byte of `c`, whether it is stored by bytes or
-- by words, and all other bytes are as before.
memset_lem :
    (mem : Memory) (v c n x : ℕ) → v + n < word → memset mem v c n x ≡ filled mem v (c % 256) n x
unfolding memset
memset_lem mem v c n x h = elim (Bool-cases (n == 0)) [
  | inl none' ↦ rw none' (ground arith)
  | inr more ↦ elim (Bool-cases (v % 4 == 0 && n % 4 == 0)) [
    | inl words ↦
        let all : 4 * (n / 4) ≡ n = whole words in
        rw (more, words)
          (set_words-filled mem v c (n / 4) x (omega arith)
            ∙ ap (λ k. filled mem v (c % 256) k x) all)
    | inr bytes ↦ rw (more, bytes) (set_bytes-filled mem v c n x h)
  ]
]
  where
    whole : (v % 4 == 0 && n % 4 == 0) ≡ true → 4 * (n / 4) ≡ n
    whole e = ground arith

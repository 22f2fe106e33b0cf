-- ===== src/Kern/Memory/Moves.antt =====
-- What a move leaves, whether the two ranges overlap or not.
use mathlib.Core.Path.{fun_ext, subst}
use sisop_mendez.Base.{
  Bool-cases, ap, arith, if◌then◌else◌, inl, inr, leb, ltb, suc, sym, true, zero, ℕ, ◌&&◌, ◌*◌, ◌+◌,
  ◌-◌, ◌/◌, ◌<◌, ◌∙◌, ◌≡◌, ◌≤◌, ◌⊎◌,
}
use sisop_mendez.Kern.Memory.{
  Memory, back, copy_down, copy_up, copy_words_down, copy_words_up, forth, is_aligned, memmove,
  move_down, move_up, move_word, store,
}
use sisop_mendez.Kern.Types.{word}

-- The `n` bytes from `s` stand at `d`, and all else is as it was.
abbrev pub moved : Memory → ℕ → ℕ → ℕ → Memory
moved mem d s n x = if leb d x && ltb x (d + n) then mem (s + (x - d)) else mem x

-- The first byte, then the others.
up-step :
    (mem : Memory) (d s n x : ℕ)
    → (d ≤ s) ⊎ (s + suc n ≤ d)
    → moved (store mem d (mem s)) (d + 1) (s + 1) n x ≡ moved mem d s (suc n) x
unfolding store
up-step mem d s n x (inl apart) = grind arith
up-step mem d s n x (inr apart) = grind arith

-- The last byte, then the others.
down-step :
    (mem : Memory) (d s n x : ℕ)
    → s < d
    → moved (store mem (d + n) (mem (s + n))) d s n x ≡ moved mem d s (suc n) x
unfolding store
down-step mem d s n x below = grind arith

move_word-moved : (mem : Memory) (d s x : ℕ) → move_word mem d s x ≡ moved mem d s 4 x
unfolding move_word store
move_word-moved mem d s x = grind arith

-- Four bytes, then the others, and the other way round.
moved-first :
    (mem : Memory) (d s n x : ℕ)
    → (d ≤ s) ⊎ (s + (4 + n) ≤ d)
    → moved (moved mem d s 4) (d + 4) (s + 4) n x ≡ moved mem d s (4 + n) x
moved-first mem d s n x (inl apart) = grind arith
moved-first mem d s n x (inr apart) = grind arith

moved-last :
    (mem : Memory) (d s n x : ℕ)
    → s < d
    → moved (moved mem (d + n) (s + n) 4) d s n x ≡ moved mem d s (4 + n) x
moved-last mem d s n x below = grind arith

-- The ranges do not stop the copy upwards.
later : (d s k n : ℕ) → (d ≤ s) ⊎ (s + (k + n) ≤ d) → (d + k ≤ s + k) ⊎ (s + k + n ≤ d + k)
later d s k n (inl h) = inl (omega arith)
later d s k n (inr h) = inr (omega arith)

first : (d s n : ℕ) → (d ≤ s) ⊎ (s + suc n ≤ d) → (d ≤ s) ⊎ (s + (1 + n) ≤ d)
first d s n (inl h) = inl h
first d s n (inr h) = inr (omega arith)

copy_up-moved :
    (mem : Memory) (d s n x : ℕ)
    → d + n < word
    → s + n < word
    → (d ≤ s) ⊎ (s + n ≤ d)
    → copy_up mem d s n x ≡ moved mem d s n x
unfolding copy_up
copy_up-moved mem d s zero x hd hs apart = ground arith
copy_up-moved mem d s (suc n) x hd hs apart =
    let d' : forth d 1 ≡ d + 1 = omega arith in
    let s' : forth s 1 ≡ s + 1 = omega arith in
    rw (d', s')
      (copy_up-moved (store mem d (mem s)) (d + 1) (s + 1) n x (omega arith) (omega arith)
          (later d s 1 n (first d s n apart))
        ∙ up-step mem d s n x apart)

-- From the last bytes, at `dl` and `sl`.
copy_down-moved :
    (mem : Memory) (d s n x dl sl : ℕ)
    → s < d
    → d + n < word
    → dl < word
    → sl < word
    → forth dl 1 ≡ d + n
    → forth sl 1 ≡ s + n
    → copy_down mem dl sl n x ≡ moved mem d s n x
unfolding copy_down
copy_down-moved mem d s zero x dl sl below hd hl hl' ed es = ground arith
copy_down-moved mem d s (suc n) x dl sl below hd hl hl' ed es =
    let dl' : dl ≡ d + n = omega arith in
    let sl' : sl ≡ s + n = omega arith in
    rw (dl', sl')
      (copy_down-moved (store mem (d + n) (mem (s + n))) d s n x (back (d + n) 1) (back (s + n) 1)
          below (omega arith) (omega arith) (omega arith) (omega arith) (omega arith)
        ∙ down-step mem d s n x below)

-- The same four bytes at a time.
words-four : (n : ℕ) → 4 * suc n ≡ 4 + 4 * n
words-four n = omega arith

copy_words_up-moved :
    (mem : Memory) (d s n x : ℕ)
    → d + 4 * n < word
    → s + 4 * n < word
    → (d ≤ s) ⊎ (s + 4 * n ≤ d)
    → copy_words_up mem d s n x ≡ moved mem d s (4 * n) x
unfolding copy_words_up
copy_words_up-moved mem d s zero x hd hs apart = ground arith
copy_words_up-moved mem d s (suc n) x hd hs apart =
    let d' : forth d 4 ≡ d + 4 = omega arith in
    let s' : forth s 4 ≡ s + 4 = omega arith in
    let apart' : (d ≤ s) ⊎ (s + (4 + 4 * n) ≤ d) =
      subst (λ k. (d ≤ s) ⊎ (s + k ≤ d)) (words-four n) apart in
    rw (d', s', words-four n)
      (copy_words_up-moved (move_word mem d s) (d + 4) (s + 4) n x (omega arith) (omega arith)
          (later d s 4 (4 * n) apart')
        ∙ ap (λ m. moved m (d + 4) (s + 4) (4 * n) x) (fun_ext (move_word-moved mem d s))
        ∙ moved-first mem d s (4 * n) x apart')

-- From the last words, at `dl` and `sl`.
copy_words_down-moved :
    (mem : Memory) (d s n x dl sl : ℕ)
    → s < d
    → d + 4 * n < word
    → dl < word
    → sl < word
    → forth dl 4 ≡ d + 4 * n
    → forth sl 4 ≡ s + 4 * n
    → copy_words_down mem dl sl n x ≡ moved mem d s (4 * n) x
unfolding copy_words_down
copy_words_down-moved mem d s zero x dl sl below hd hl hl' ed es = ground arith
copy_words_down-moved mem d s (suc n) x dl sl below hd hl hl' ed es =
    let dl' : dl ≡ d + 4 * n = omega arith in
    let sl' : sl ≡ s + 4 * n = omega arith in
    rw (dl', sl', words-four n)
      (copy_words_down-moved (move_word mem (d + 4 * n) (s + 4 * n)) d s n x (back (d + 4 * n) 4)
          (back (s + 4 * n) 4) below (omega arith) (omega arith) (omega arith) (omega arith)
          (omega arith)
        ∙ ap (λ m. moved m d s (4 * n) x) (fun_ext (move_word-moved mem (d + 4 * n) (s + 4 * n)))
        ∙ moved-last mem d s (4 * n) x below)

whole_words : (s d n : ℕ) → is_aligned s d n ≡ true → 4 * (n / 4) ≡ n
whole_words s d n h = ground arith

move_up-moved :
    (mem : Memory) (d s n x : ℕ)
    → d + n < word
    → s + n < word
    → (d ≤ s) ⊎ (s + n ≤ d)
    → move_up mem d s n x ≡ moved mem d s n x
unfolding move_up
move_up-moved mem d s n x hd hs apart = elim (Bool-cases (is_aligned s d n)) [
  | inl words ↦
      let all = whole_words s d n words in
      rw words (
        copy_words_up-moved mem d s (n / 4) x (omega arith) (omega arith)
          (subst (λ k. (d ≤ s) ⊎ (s + k ≤ d)) (sym all) apart)
        ∙ ap (λ k. moved mem d s k x) all)
  | inr bytes ↦ rw bytes (copy_up-moved mem d s n x hd hs apart)
]

move_down-moved :
    (mem : Memory) (d s n x : ℕ)
    → s < d
    → d + n < word
    → move_down mem (d + n) (s + n) n x ≡ moved mem d s n x
unfolding move_down
move_down-moved mem d s n x below hd = elim (Bool-cases (is_aligned (s + n) (d + n) n)) [
  | inl words ↦
      let all = whole_words (s + n) (d + n) n words in
      rw words (
        copy_words_down-moved mem d s (n / 4) x (back (d + n) 4) (back (s + n) 4) below
          (omega arith) (omega arith) (omega arith) (omega arith) (omega arith)
        ∙ ap (λ k. moved mem d s k x) all)
  | inr bytes ↦ rw bytes (
      copy_down-moved mem d s n x (back (d + n) 1) (back (s + n) 1) below (omega arith)
        (omega arith) (omega arith) (omega arith) (omega arith))
]

-- After `memmove` of two ranges that both end below 2^32, by bytes or by words, the bytes that
-- stood in the source stand in the destination, and all others are as before, however the two
-- ranges overlap.
pub memmove_lem :
    (mem : Memory) (dst src n x : ℕ)
    → dst + n < word
    → src + n < word
    → memmove mem dst src n x ≡ moved mem dst src n x
unfolding memmove
memmove_lem mem dst src n x hd hs =
    let d' : forth dst n ≡ dst + n = omega arith in
    let s' : forth src n ≡ src + n = omega arith in
    rw (d', s')
      (elim (Bool-cases (ltb src dst && ltb dst (src + n))) [
        | inl overlap ↦ rw overlap (move_down-moved mem dst src n x (ground arith) hd)
        | inr apart ↦ rw apart (move_up-moved mem dst src n x hd hs (ground arith))
      ])

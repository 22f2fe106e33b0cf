-- ===== src/Kern/Paging/Masks.antt =====
-- What the test of `user_mem_check` on the bits of an entry says, bit by bit.
use sisop_mendez.Base.{
  ==_iff, Bool, Bool-cases, arith, false, inl, inr, refl, suc, true, zero, ℕ, ◌%◌, ◌/◌, ◌<◌, ◌==◌,
  ◌^◌, ◌||◌, ◌≡◌,
}
use sisop_mendez.Kern.Paging.{allows, and_bits, or_bits}

-- Bit `i` of a word, from the lowest.
unfoldable pub bit_at : ℕ → ℕ → Bool
bit_at zero w = w % 2 == 1
bit_at (suc i) w = bit_at i (w / 2)

-- The entry is present and has each of the 32 bits of `perm` that are set.
abbrev pub Grants : ℕ → ℕ → Type 0
Grants pte perm =
    (bit_at 0 pte ≡ true) × ((i : ℕ) → i < 32 → bit_at i perm ≡ true → bit_at i pte ≡ true)

or_bits-lt : (n a b : ℕ) → or_bits n a b < 2 ^ n
unfolding or_bits
or_bits-lt zero a b = omega arith
or_bits-lt (suc n) a b = let rest = or_bits-lt n (a / 2) (b / 2) in ground (arith, rest)

bit_at-or : (n i a b : ℕ) → i < n → bit_at i (or_bits n a b) ≡ (bit_at i a || bit_at i b)
unfolding or_bits bit_at
bit_at-or zero i a b h = absurd (omega arith)
bit_at-or (suc n) zero a b h = ground arith
bit_at-or (suc n) (suc i) a b h =
    let rest = bit_at-or n i (a / 2) (b / 2) (omega arith) in
    let half : or_bits (suc n) a b / 2 ≡ or_bits n (a / 2) (b / 2) = ground arith in rw half rest

included-bit : (n i a b : ℕ) → and_bits n a b ≡ b → i < n → bit_at i b ≡ true → bit_at i a ≡ true
unfolding and_bits bit_at
included-bit zero i a b e h set = absurd (omega arith)
included-bit (suc n) zero a b e h set = ground arith
included-bit (suc n) (suc i) a b e h set =
    included-bit n i (a / 2) (b / 2) (ground arith) (omega arith) set

bits-included :
    (n a b : ℕ)
    → b < 2 ^ n
    → ((i : ℕ) → i < n → bit_at i b ≡ true → bit_at i a ≡ true)
    → and_bits n a b ≡ b
unfolding and_bits bit_at
bits-included zero a b h all = omega arith
bits-included (suc n) a b h all =
    let rest =
      bits-included n (a / 2) (b / 2) (omega arith) (λ i l set. all (suc i) (omega arith) set) in
    ground (arith, rest, all 0 (omega arith))

bit_at-zero : (i : ℕ) → bit_at i 0 ≡ false
unfolding bit_at
bit_at-zero zero = refl
bit_at-zero (suc i) = bit_at-zero i

one-bit : (i : ℕ) → bit_at (suc i) 1 ≡ false
unfolding bit_at
one-bit i = bit_at-zero i

lowest_bit : bit_at 0 1 ≡ true
unfolding bit_at
lowest_bit = refl

-- The bits of `perm | PTE_P` are those of `perm` and the lowest.
bits :
    (pte perm : ℕ)
    → bit_at 0 pte ≡ true
    → ((i : ℕ) → i < 32 → bit_at i perm ≡ true → bit_at i pte ≡ true)
    → (i : ℕ) → i < 32
    → bit_at i (or_bits 32 perm 1) ≡ true
    → bit_at i pte ≡ true
bits pte perm present others zero l set = present
bits pte perm present others (suc i) l set =
    others (suc i) l (ground (arith, bit_at-or 32 (suc i) perm 1 l, one-bit i, set))

pub allows-Grants : (pte perm : ℕ) → allows pte perm ≡ true → Grants pte perm
unfolding allows
allows-Grants pte perm h =
    let same = (==_iff (and_bits 32 pte (or_bits 32 perm 1)) (or_bits 32 perm 1)).0 h in
    let each = λ (i : ℕ) (l : i < 32). included-bit 32 i pte (or_bits 32 perm 1) same l in
    (
      each 0 (omega arith) (ground (arith, bit_at-or 32 0 perm 1 (omega arith), lowest_bit)),
      λ i l set. each i l (ground (arith, bit_at-or 32 i perm 1 l, set)),
    )

-- The entry 0 grants nothing.
pub allows-zero : (perm : ℕ) → allows 0 perm ≡ false
allows-zero perm = elim (Bool-cases (allows 0 perm)) [
  | inl yes' ↦ cc ((allows-Grants 0 perm yes').0, bit_at-zero 0)
  | inr no' ↦ no'
]

pub Grants-allows : (pte perm : ℕ) → Grants pte perm → allows pte perm ≡ true
unfolding allows
Grants-allows pte perm (present, others) =
    (==_iff _ _).1 (
      bits-included 32 pte (or_bits 32 perm 1) (or_bits-lt 32 perm 1)
        (bits pte perm present others))

-- ===== src/Fs/Valid/Content.antt =====
-- What the handlers of files do to a content: its length, and the NUL that ends it.
use mathlib.Core.Option.{some-injective}
use mathlib.Core.Path.{subst}
use sisop_mendez.Base.{
  Bool-cases, List, Option-cases, [], arith, drop, inl, inr, length, length-append, length-drop,
  length-set, length-take, ltb, none, refl, set, some, suc, take, zero, ℕ, ◌++◌, ◌+◌, ◌-◌, ◌<◌, ◌∙◌,
  ◌∷◌, ◌≡◌, ◌≢◌,
}
use sisop_mendez.Fs.Files.{copy_in, resize, truncate_content, zero_bytes}
use sisop_mendez.Fs.Paths.{strlen}
use sisop_mendez.Fs.Types.{max_data_size}

pub strlen-lt : (s : List ℕ) (n : ℕ) → strlen s ≡ some n → n < length s
unfolding strlen
strlen-lt [] n h = cc
strlen-lt (zero ∷ s) n h = ground arith
strlen-lt (suc a ∷ s) zero h = ground arith
strlen-lt (suc a ∷ s) (suc n) h = ground (arith, strlen-lt s n)

-- Where `strlen` stops, a NUL stands already.
pub set-strlen : (s : List ℕ) (n : ℕ) → strlen s ≡ some n → set s n 0 ≡ s
unfolding strlen
set-strlen [] n h = cc
set-strlen (zero ∷ s) zero h = refl
set-strlen (zero ∷ s) (suc n) h = cc
set-strlen (suc a ∷ s) zero h = ground arith
set-strlen (suc a ∷ s) (suc n) h = ground (arith, set-strlen s n)

-- A NUL more leaves a string that ends.
pub strlen-set_zero : (s : List ℕ) (i : ℕ) → strlen s ≢ none → strlen (set s i 0) ≢ none
unfolding strlen
strlen-set_zero [] i h = h
strlen-set_zero (a ∷ s) zero h = λ e. cc e
strlen-set_zero (zero ∷ s) (suc i) h = λ e. cc e
strlen-set_zero (suc a ∷ s) (suc i) h =
    λ e. strlen-set_zero s i (λ e'. h (rw e' refl)) (ground arith)

pub length-zero_bytes : (n from : ℕ) (s : List ℕ) → length (zero_bytes n from s) ≡ length s
unfolding zero_bytes
length-zero_bytes zero from s = refl
length-zero_bytes (suc n) from s =
    length-zero_bytes n (suc from) (set s from 0) ∙ length-set s from 0

pub strlen-zero_bytes :
    (n from : ℕ) (s : List ℕ) → strlen s ≢ none → strlen (zero_bytes n from s) ≢ none
unfolding zero_bytes
strlen-zero_bytes zero from s h = h
strlen-zero_bytes (suc n) from s h =
    strlen-zero_bytes n (suc from) (set s from 0) (strlen-set_zero s from h)

pub length-copy_in :
    (s : List ℕ) (offset : ℕ) (bytes t : List ℕ)
    → copy_in s offset bytes ≡ some t
    → length t ≡ length s
unfolding copy_in
length-copy_in s offset bytes t h = elim (Bool-cases (ltb (length s) (offset + length bytes))) [
  | inl over ↦ ground arith
  | inr fits ↦
      let e : take offset s ++ (bytes ++ drop (offset + length bytes) s) ≡ t = ground arith in
      rw (← e) (
        ground (
          arith,
          length-append (take offset s) (bytes ++ drop (offset + length bytes) s),
          length-append bytes (drop (offset + length bytes) s),
          length-take offset s,
          length-drop (offset + length bytes) s,
        ))
]

pub length-resize : (s : List ℕ) (size len : ℕ) → length (resize s size len) ≡ length s
unfolding resize
length-resize s size len = elim (Bool-cases (ltb size len)) [
  | inl cut ↦ rw cut (simp (length-set, length-zero_bytes))
  | inr grown ↦ rw grown (simp length-zero_bytes)
]

pub strlen-resize :
    (s : List ℕ) (size len : ℕ) → strlen s ≢ none → strlen (resize s size len) ≢ none
unfolding resize
strlen-resize s size len h = elim (Bool-cases (ltb size len)) [
  | inl cut ↦ rw cut (
      strlen-set_zero _ size
        (strlen-zero_bytes (size - len) len _ (strlen-zero_bytes (len - size) size s h)))
  | inr grown ↦
      rw grown (strlen-zero_bytes (size - len) len _ (strlen-zero_bytes (len - len) len s h))
]

-- `fisopfs_truncate` keeps the length of the buffer, and a NUL in it.
pub truncate_content-keeps :
    (s : List ℕ) (size : ℕ) (t : List ℕ)
    → strlen s ≢ none
    → truncate_content s size ≡ some t
    → (length t ≡ length s) × (strlen t ≢ none)
unfolding truncate_content
truncate_content-keeps s zero t h e =
    subst (λ u. (length u ≡ length s) × (strlen u ≢ none)) (some-injective _ _ e)
      (length-zero_bytes max_data_size 0 s, strlen-zero_bytes max_data_size 0 s h)
truncate_content-keeps s (suc n) t h e = elim (Option-cases (strlen s)) [
  | inl missing ↦ absurd (h missing)
  | inr (len, ends) ↦
      let same : resize s (suc n) (suc len) ≡ t = ground arith in
      subst (λ u. (length u ≡ length s) × (strlen u ≢ none)) same
        (length-resize s (suc n) (suc len), strlen-resize s (suc n) (suc len) h)
]

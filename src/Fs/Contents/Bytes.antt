-- ===== src/Fs/Contents/Bytes.antt =====
-- `strlen` and `memcpy` in the buffer of a file.
use mathlib.Core.List.{append_assoc}
use sisop_mendez.Base.{
  Bool-cases, Lacks, List, [], ap, arith, drop, drop-append, false, get_or, get_or-append_right,
  get_or-drop, inl, inr, length, length-append, length-take, ltb, none, refl, some, suc, sym, take,
  take-append, zero, ℕ, ◌++◌, ◌+◌, ◌-◌, ◌∙◌, ◌∷◌, ◌≡◌, ◌≢◌, ◌≤◌,
}
use sisop_mendez.Fs.Files.{copy_in, copy_out}
use sisop_mendez.Fs.Paths.{strlen}
use sisop_mendez.Fs.Types.{max_data_size}
use sisop_mendez.Fs.Valid.Content.{length-copy_in}

pub strlen-append :
    (s t : List ℕ) (m : ℕ) → Lacks 0 s → strlen t ≡ some m → strlen (s ++ t) ≡ some (length s + m)
unfolding strlen
strlen-append [] t m l h = rw h (ap some (omega arith))
strlen-append (zero ∷ s) t m l h = cc l.0
strlen-append (suc a ∷ s) t m l h = rw (strlen-append s t m l.1 h) (ap some (omega arith))

-- `strlen` of a string behind `s` that has no NUL is at least the length of `s`.
pub strlen-append-ge : (s t : List ℕ) (m : ℕ) → Lacks 0 s → strlen (s ++ t) ≡ some m → length s ≤ m
unfolding strlen
strlen-append-ge [] t m l h = omega arith
strlen-append-ge (zero ∷ s) t m l h = cc l.0
strlen-append-ge (suc a ∷ s) t zero l h = ground (arith)
strlen-append-ge (suc a ∷ s) t (suc m) l h = ground (arith, strlen-append-ge s t m l.1)

-- Up to `strlen` there is no NUL.
pub take-Lacks : (s : List ℕ) (k n : ℕ) → strlen s ≡ some n → k ≤ n → Lacks 0 (take k s)
unfolding strlen
take-Lacks [] k n h le = cc
take-Lacks (a ∷ s) zero n h le = tt
take-Lacks (zero ∷ s) (suc k) n h le = ground arith
take-Lacks (suc a ∷ s) (suc k) zero h le = ground arith
take-Lacks (suc a ∷ s) (suc k) (suc n) h le = ground (arith, take-Lacks s k n)

pub Lacks-append : (c : ℕ) (s t : List ℕ) → Lacks c s → Lacks c t → Lacks c (s ++ t)
Lacks-append c [] t l l' = l'
Lacks-append c (a ∷ s) t l l' = (l.0, Lacks-append c s t l.1 l')

pub copy_in-parts :
    (s : List ℕ) (offset : ℕ) (bytes : List ℕ) {t : List ℕ}
    → copy_in s offset bytes ≡ some t
    → (offset + length bytes ≤ length s)
      × (t ≡ take offset s ++ (bytes ++ drop (offset + length bytes) s))
unfolding copy_in
copy_in-parts s offset bytes h = elim (Bool-cases (ltb (length s) (offset + length bytes))) [
  | inl over ↦ absurd (ground arith)
  | inr fits ↦ (ground arith, ground arith)
]

pub length-take_le : (s : List ℕ) (k : ℕ) → k ≤ length s → length (take k s) ≡ k
length-take_le s k h = omega (arith, length-take k s)

-- What `copy_in` writes is what `copy_out` reads.
pub copy_out-copy_in :
    (s : List ℕ) (offset : ℕ) (bytes : List ℕ) {t : List ℕ}
    → copy_in s offset bytes ≡ some t
    → copy_out t offset (length bytes) ≡ some bytes
unfolding copy_out
copy_out-copy_in s offset bytes {t} h = rw (
  no_fault,
  ap (drop offset) parts.1,
  drop-append offset (take offset s) (bytes ++ rest)
      (length-take_le s offset (omega (arith, parts.0))),
  take-append (length bytes) bytes rest refl,
)
  where
    parts :
        (offset + length bytes ≤ length s)
        × (t ≡ take offset s ++ (bytes ++ drop (offset + length bytes) s))
    parts = copy_in-parts s offset bytes h

    rest : List ℕ
    rest = drop (offset + length bytes) s

    no_fault : ltb (length t) (offset + length bytes) ≡ false
    no_fault = ground (arith, length-copy_in s offset bytes t h, parts.0)

-- Writing bytes without a NUL inside the string, or at its end, leaves a string that holds them.
pub copy_in-strlen :
    (s : List ℕ) (offset : ℕ) (bytes : List ℕ) (len size : ℕ) {t : List ℕ}
    → strlen s ≡ some len
    → offset ≤ len
    → Lacks 0 bytes
    → copy_in s offset bytes ≡ some t
    → strlen t ≡ some size
    → offset + length bytes ≤ size
copy_in-strlen s offset bytes len size {t} ends le l h e = omega (
  arith,
  length-append (take offset s) bytes,
  length-take_le s offset (omega (arith, parts.0)),
  strlen-append-ge (take offset s ++ bytes) (drop (offset + length bytes) s) size
      (Lacks-append 0 (take offset s) bytes (take-Lacks s offset len ends le) l)
      (ap strlen (append_assoc (take offset s) bytes (drop (offset + length bytes) s) ∙ sym parts.1)
        ∙ e),
)
  where
    parts :
        (offset + length bytes ≤ length s)
        × (t ≡ take offset s ++ (bytes ++ drop (offset + length bytes) s))
    parts = copy_in-parts s offset bytes h

-- The last byte of the buffer is NUL.
abbrev pub IsSealed : List ℕ → Type 0
IsSealed s = get_or s (max_data_size - 1) 1 ≡ 0

pub ends_of_zero : (s : List ℕ) (k : ℕ) → get_or s k 1 ≡ 0 → strlen s ≢ none
unfolding strlen
ends_of_zero [] k h = λ e. absurd (omega arith)
ends_of_zero (zero ∷ s) k h = λ e. cc e
ends_of_zero (suc a ∷ s) zero h = absurd (omega arith)
ends_of_zero (suc a ∷ s) (suc k) h = λ e. ends_of_zero s k h (ground arith)

pub get_or-copy_in :
    (s : List ℕ) (offset : ℕ) (bytes : List ℕ) (k d : ℕ) {t : List ℕ}
    → copy_in s offset bytes ≡ some t
    → offset + length bytes ≤ k
    → get_or t k d ≡ get_or s k d
get_or-copy_in s offset bytes k d {t} h past =
    ap (λ u. get_or u k d) parts.1
    ∙ get_or-append_right (take offset s) _ k d (omega (arith, front))
    ∙ get_or-append_right bytes _ (k - length (take offset s)) d (omega (arith, front))
    ∙ get_or-drop s (offset + length bytes) (k - length (take offset s) - length bytes) d
    ∙ ap (λ j. get_or s j d) (omega (arith, front))
  where
    parts :
        (offset + length bytes ≤ length s)
        × (t ≡ take offset s ++ (bytes ++ drop (offset + length bytes) s))
    parts = copy_in-parts s offset bytes h

    front : length (take offset s) ≡ offset
    front = length-take_le s offset (omega (arith, parts.0))

pub copy_in-some :
    (s : List ℕ) (offset : ℕ) (bytes : List ℕ)
    → offset + length bytes ≤ length s
    → (t : List ℕ) × (copy_in s offset bytes ≡ some t)
unfolding copy_in
copy_in-some s offset bytes h =
    (take offset s ++ (bytes ++ drop (offset + length bytes) s), ground arith)

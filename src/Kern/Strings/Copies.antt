-- ===== src/Kern/Strings/Copies.antt =====
-- The copies of lib/string.c on strings that end in a NUL.
use sisop_mendez.Base.{
  Lacks, List, [], arith, drop, drop-append, length, refl, some, suc, take, take-append, zero, ℕ,
  ◌++◌, ◌<◌, ◌∷◌, ◌≡◌, ◌≤◌,
}
use sisop_mendez.Kern.Strings.{
  strcat, strcat_from, strcpy, strcpy_at, strlcpy, strlcpy_loop, strlen,
}

pub strlen-string : (s rest : List ℕ) → Lacks 0 s → strlen (s ++ 0 ∷ rest) ≡ some (length s)
unfolding strlen
strlen-string [] rest h = refl
strlen-string (b ∷ s) rest (h, hs) = rw (h, strlen-string s rest hs) refl

strcpy-string :
    (s rest dst : List ℕ)
    → Lacks 0 s
    → length s < length dst
    → strcpy dst (s ++ 0 ∷ rest) ≡ some (s ++ 0 ∷ drop (suc (length s)) dst)
unfolding strcpy
strcpy-string s rest [] h room = absurd (omega arith)
strcpy-string [] rest (d ∷ dst) h room = refl
strcpy-string (b ∷ s) rest (d ∷ dst) (h, hs) room =
    rw (h, strcpy-string s rest dst hs (omega arith)) refl

take-string : (s t : List ℕ) → take (length s) (s ++ t) ≡ s
take-string s t = take-append (length s) s t refl

drop-string : (s t : List ℕ) → drop (length s) (s ++ t) ≡ t
drop-string s t = drop-append (length s) s t refl

-- `strcat` puts one string behind the other, with one NUL behind both, and leaves what is behind
-- that NUL as it was.
strcat_lem :
    (s behind t rest : List ℕ)
    → Lacks 0 s
    → Lacks 0 t
    → length t ≤ length behind
    → strcat (s ++ 0 ∷ behind) (t ++ 0 ∷ rest) ≡ some (s ++ (t ++ 0 ∷ drop (length t) behind))
unfolding strcat_from strcpy_at
strcat_lem s behind t rest hs ht room =
    rw
      (
        strlen-string s behind hs,
        drop-string s (0 ∷ behind),
        take-string s (0 ∷ behind),
        strcpy-string t rest (0 ∷ behind) ht (omega arith),
      )
      refl

-- `strlcpy` copies as much of the string as there is room for in front of a NUL, answers how much
-- that is, and leaves the rest of the buffer as it was.
pub strlcpy_lem :
    (s rest dst : List ℕ) (room : ℕ)
    → Lacks 0 s
    → room < length dst
    → strlcpy dst (s ++ 0 ∷ rest) (suc room)
      ≡ some (length (take room s), take room s ++ 0 ∷ drop (suc (length (take room s))) dst)
unfolding strlcpy strlcpy_loop
strlcpy_lem s rest dst room h fits = loop s dst room h fits
  where
    loop :
        (s dst : List ℕ) (room : ℕ)
        → Lacks 0 s
        → room < length dst
        → strlcpy_loop dst (s ++ 0 ∷ rest) room
          ≡ some (length (take room s), take room s ++ 0 ∷ drop (suc (length (take room s))) dst)
    loop s [] room h fits = absurd (omega arith)
    loop s (d ∷ dst) zero h fits = refl
    loop [] (d ∷ dst) (suc room) h fits = refl
    loop (b ∷ s) (d ∷ dst) (suc room) (h, hs) fits = rw (h, loop s dst room hs (omega arith)) refl

-- ===== src/Fs/Paths.antt =====
-- The string functions that utils.c calls, and its two functions on paths. An index into a string
-- stands for the pointer that the source gets.
use sisop_mendez.Base.{
  Bool, List, Option, [], drop, false, if◌then◌else◌, none, some, suc, take, true, zero, ℕ, ◌&&◌,
  ◌==◌, ◌∷◌,
}
use sisop_mendez.Fs.Types.{Str}

-- `strcmp(a, b) == 0`
unfoldable pub str_eq : Str → Str → Bool
str_eq [] [] = true
str_eq [] (b ∷ t) = false
str_eq (a ∷ s) [] = false
str_eq (a ∷ s) (b ∷ t) = a == b && str_eq s t

-- `strrchr(s, c)`: the index of the last `c`.
unfoldable pub strrchr : Str → ℕ → Option ℕ
strrchr [] c = none
strrchr (a ∷ s) c = elim (strrchr s c) [
  | some i ↦ some (suc i)
  | none ↦ if a == c then some 0 else none
]

-- `strlen` in a buffer; `none` where it finds no NUL and reads on.
unfoldable pub strlen : List ℕ → Option ℕ
strlen [] = none
strlen (zero ∷ s) = some 0
strlen (suc a ∷ s) = elim (strlen s) [ none ↦ none | some n ↦ some (suc n) ]

abbrev pub root_path : Str
root_path = b'/' ∷ []

unfoldable pub get_filename_from_path : Str → Option Str
get_filename_from_path [] = none
get_filename_from_path (a ∷ s) = elim (strrchr (a ∷ s) b'/') [
  | none ↦ some (a ∷ s)
  | some i ↦ some (drop (suc i) (a ∷ s))
]

unfoldable pub get_parent_path_from_path : Str → Str
get_parent_path_from_path s = elim (strrchr s b'/') [ some i ↦ take i s | none ↦ [] ]

-- ===== src/Kern/Strings.antt =====
-- lib/string.c, without `memset`, `memmove` and `memcpy`. A pointer is the list of the
-- bytes from there to the end of its buffer; `none` runs past it. An `int` or a `long` is its bit
-- pattern.
pub mod Copies
pub mod Numbers
use mathlib.Core.Option
use sisop_mendez.Base.{
  Bool, List, Option, [], drop, false, get_or, if◌then◌else◌, leb, none, not, some, suc, take, zero,
  ℕ, ◌%◌, ◌&&◌, ◌*◌, ◌++◌, ◌+◌, ◌-◌, ◌==◌, ◌||◌, ◌∷◌,
}
use sisop_mendez.Kern.Types.{slt, word}

unfoldable pub strlen : List ℕ → Option ℕ
strlen [] = none
strlen (b ∷ s) = if b == 0 then some 0 else Option.map suc (strlen s)

unfoldable pub strnlen : List ℕ → ℕ → Option ℕ
strnlen s zero = some 0
strnlen [] (suc size) = none
strnlen (b ∷ s) (suc size) = if b == 0 then some 0 else Option.map suc (strnlen s size)

-- What stands at `dst` afterwards.
unfoldable pub strcpy : List ℕ → List ℕ → Option (List ℕ)
strcpy [] src = none
strcpy (d ∷ dst) [] = none
strcpy (d ∷ dst) (b ∷ src) = if b == 0 then some (0 ∷ dst) else Option.map (◌∷◌ b) (strcpy dst src)

-- `strcpy(dst + len, src)`
unfoldable pub strcpy_at : ℕ → List ℕ → List ℕ → Option (List ℕ)
strcpy_at len dst src = Option.map (λ tail. take len dst ++ tail) (strcpy (drop len dst) src)

unfoldable pub strcat_from : Option ℕ → List ℕ → List ℕ → Option (List ℕ)
strcat_from none dst src = none
strcat_from (some len) dst src = strcpy_at len dst src

abbrev pub strcat : List ℕ → List ℕ → Option (List ℕ)
strcat dst src = strcat_from (strlen dst) dst src

unfoldable pub strncpy : List ℕ → List ℕ → ℕ → Option (List ℕ)
strncpy dst src zero = some dst
strncpy [] src (suc size) = none
strncpy (d ∷ dst) [] (suc size) = none
strncpy (d ∷ dst) (b ∷ src) (suc size) =
    Option.map (◌∷◌ b) (strncpy dst (if b == 0 then b ∷ src else src) size)

-- The loop of `strlcpy` with room for `room` bytes in front of the NUL: how many it copies, and
-- what stands at `dst`.
unfoldable pub strlcpy_loop : List ℕ → List ℕ → ℕ → Option (ℕ × List ℕ)
strlcpy_loop [] src room = none
strlcpy_loop (d ∷ dst) src zero = some (0, 0 ∷ dst)
strlcpy_loop (d ∷ dst) [] (suc room) = none
strlcpy_loop (d ∷ dst) (b ∷ src) (suc room) =
    if b == 0
    then some (0, 0 ∷ dst)
    else Option.map (λ r. (suc r.0, b ∷ r.1)) (strlcpy_loop dst src room)

unfoldable pub strlcpy : List ℕ → List ℕ → ℕ → Option (ℕ × List ℕ)
strlcpy dst src zero = some (0, dst)
strlcpy dst src (suc size) = strlcpy_loop dst src size

-- `(int) (p - q)`
abbrev pub difference : ℕ → ℕ → ℕ
difference p q = (p + word - q) % word

unfoldable pub strcmp : List ℕ → List ℕ → Option ℕ
strcmp [] q = none
strcmp (a ∷ p) [] = none
strcmp (a ∷ p) (b ∷ q) = if not (a == 0) && a == b then strcmp p q else some (difference a b)

unfoldable pub strncmp : List ℕ → List ℕ → ℕ → Option ℕ
strncmp p q zero = some 0
strncmp [] q (suc n) = none
strncmp (a ∷ p) [] (suc n) = none
strncmp (a ∷ p) (b ∷ q) (suc n) =
    if not (a == 0) && a == b then strncmp p q n else some (difference a b)

-- The pointer returned, `some none` being NULL.
unfoldable pub strchr : List ℕ → ℕ → Option (Option (List ℕ))
strchr [] c = none
strchr (b ∷ s) c = if b == 0 then some none else if b == c then some (some (b ∷ s)) else strchr s c

unfoldable pub strfind : List ℕ → ℕ → Option (List ℕ)
strfind [] c = none
strfind (b ∷ s) c = if b == 0 || b == c then some (b ∷ s) else strfind s c

unfoldable pub memcmp : List ℕ → List ℕ → ℕ → Option ℕ
memcmp s1 s2 zero = some 0
memcmp [] s2 (suc n) = none
memcmp (a ∷ s1) [] (suc n) = none
memcmp (a ∷ s1) (b ∷ s2) (suc n) = if a == b then memcmp s1 s2 n else some (difference a b)

unfoldable pub memfind : List ℕ → ℕ → ℕ → Option (List ℕ)
memfind s c zero = some s
memfind [] c (suc n) = none
memfind (b ∷ s) c (suc n) = if b == c % 256 then some (b ∷ s) else memfind s c n

-- `strtol`: the whitespace, the sign, the prefix and the digits.
unfoldable pub skip_blanks : List ℕ → Option (List ℕ)
skip_blanks [] = none
skip_blanks (b ∷ s) = if b == b' ' || b == 9 then skip_blanks s else some (b ∷ s)

pub record Signed : Type 0 where
  pub neg : Bool
  pub text : List ℕ

unfoldable pub skip_sign : List ℕ → Signed
skip_sign s =
    if get_or s 0 0 == b'+'
    then record { neg = false; text = drop 1 s }
    else record { neg = get_or s 0 0 == b'-'; text = if get_or s 0 0 == b'-' then drop 1 s else s }

pub record Based : Type 0 where
  pub base : ℕ
  pub digits : List ℕ

unfoldable pub skip_prefix : ℕ → List ℕ → Based
skip_prefix base s =
    if (base == 0 || base == 16) && (get_or s 0 0 == b'0' && get_or s 1 0 == b'x')
    then record { base = 16; digits = drop 2 s }
    else if base == 0 && get_or s 0 0 == b'0'
    then record { base = 8; digits = drop 1 s }
    else if base == 0
    then record { base = 10; digits = s }
    else record { base = base; digits = s }

unfoldable pub digit : ℕ → Option ℕ
digit b =
    if leb b'0' b && leb b b'9'
    then some (b - b'0')
    else if leb b'a' b && leb b b'z'
    then some (b - b'a' + 10)
    else if leb b'A' b && leb b b'Z'
    then some (b - b'A' + 10)
    else none

-- Whether `dig` is a digit of the base, on `int`.
unfoldable pub digit_below : ℕ → Option ℕ → Bool
digit_below base none = false
digit_below base (some dig) = slt dig base

abbrev pub digit_value : Option ℕ → ℕ
digit_value none = 0
digit_value (some dig) = dig

-- The loop over the digits, with the value so far: the value, and the pointer where it stops.
unfoldable pub read_digits : ℕ → ℕ → List ℕ → Option (ℕ × List ℕ)
read_digits base val [] = none
read_digits base val (b ∷ s) =
    if digit_below base (digit b)
    then read_digits base ((val * base + digit_value (digit b)) % word) s
    else some (val, b ∷ s)

abbrev pub signed : Bool → ℕ × List ℕ → ℕ × List ℕ
signed neg r = (if neg then (word - r.0) % word else r.0, r.1)

abbrev pub strtol_signed : ℕ → Signed → Option (ℕ × List ℕ)
strtol_signed base s =
    let p = skip_prefix base s.text in Option.map (signed s.neg) (read_digits p.base 0 p.digits)

-- The value, and what `*endptr` is set to.
unfoldable pub strtol : List ℕ → ℕ → Option (ℕ × List ℕ)
strtol s base = Option.bind (skip_blanks s) (λ t. strtol_signed base (skip_sign t))

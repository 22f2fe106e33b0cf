-- ===== src/Kern/Console.antt =====
-- The console of kern/console.c: the ring of input characters. A device gives a list of characters,
-- behind which it answers -1. The other files are about the keyboard and the screen.
pub mod Keymaps
pub mod Keyboard
pub mod Input
pub mod Sessions
pub mod Screen
use sisop_mendez.Base.{Bool, List, [], get_or, if◌then◌else◌, set, ℕ, ◌%◌, ◌+◌, ◌==◌, ◌∷◌}

abbrev pub consbufsize : ℕ
consbufsize = 512

pub record Cons : Type 0 where
  pub buf : List ℕ
  pub rpos : ℕ
  pub wpos : ℕ

-- An index that reaches the end of the buffer starts again.
abbrev pub wrapped : ℕ → ℕ
wrapped pos = if pos == consbufsize then 0 else pos

-- One character of the loop of `cons_intr`; the buffer has bytes.
unfoldable pub put_char : Cons → ℕ → Cons
put_char c x =
    if x == 0 then c else record c { buf = set c.buf c.wpos (x % 256); wpos = wrapped (c.wpos + 1) }

unfoldable pub cons_intr : Cons → List ℕ → Cons
cons_intr c [] = c
cons_intr c (x ∷ xs) = cons_intr (put_char c x) xs

-- The end of `cons_getc`.
unfoldable pub next_char : Cons → ℕ × Cons
next_char c =
    if c.rpos == c.wpos
    then (0, c)
    else (get_or c.buf c.rpos 0, record c { rpos = wrapped (c.rpos + 1) })

-- `serial` is what the serial port has, and `keys` the characters of the keyboard.
unfoldable pub cons_getc : Cons → Bool → List ℕ → List ℕ → ℕ × Cons
cons_getc c serial_exists serial keys =
    next_char (cons_intr (if serial_exists then cons_intr c serial else c) keys)

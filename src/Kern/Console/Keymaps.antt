-- ===== src/Kern/Console/Keymaps.antt =====
-- The tables of kern/console.c that give the characters of the scan codes. An initializer lists the
-- first bytes of a table and then the bytes at the given indices; all others are 0.
use sisop_mendez.Base.{List, [], length, replicate, set, ℕ, ◌++◌, ◌-◌, ◌∷◌}

abbrev pub key_home : ℕ
key_home = 0xE0

abbrev pub key_end : ℕ
key_end = 0xE1

abbrev pub key_up : ℕ
key_up = 0xE2

abbrev pub key_dn : ℕ
key_dn = 0xE3

abbrev pub key_lf : ℕ
key_lf = 0xE4

abbrev pub key_rt : ℕ
key_rt = 0xE5

abbrev pub key_pgup : ℕ
key_pgup = 0xE6

abbrev pub key_pgdn : ℕ
key_pgdn = 0xE7

abbrev pub key_ins : ℕ
key_ins = 0xE8

abbrev pub key_del : ℕ
key_del = 0xE9

abbrev pub shift_key : ℕ
shift_key = 1

abbrev pub ctl_key : ℕ
ctl_key = 2

abbrev pub alt_key : ℕ
alt_key = 4

abbrev pub capslock : ℕ
capslock = 8

abbrev pub numlock : ℕ
numlock = 16

abbrev pub scrolllock : ℕ
scrolllock = 32

abbrev pub e0esc : ℕ
e0esc = 64

-- The bytes at the given indices of an initializer.
abbrev pub put_at : List (ℕ × ℕ) → List ℕ → List ℕ
put_at [] xs = xs
put_at ((i, v) ∷ ps) xs = put_at ps (set xs i v)

abbrev pub filled : List ℕ → List (ℕ × ℕ) → List ℕ
filled xs ps = put_at ps (xs ++ replicate (256 - length xs) 0)

unfoldable pub shiftcode : List ℕ
shiftcode = filled ([]) (
    (0x1D, ctl_key)
    ∷ (0x2A, shift_key)
    ∷ (0x36, shift_key)
    ∷ (0x38, alt_key)
    ∷ (0x9D, ctl_key)
    ∷ (0xB8, alt_key)
    ∷ [])

unfoldable pub togglecode : List ℕ
togglecode = filled ([]) ((0x3A, capslock) ∷ (0x45, numlock) ∷ (0x46, scrolllock) ∷ [])

unfoldable pub normalmap : List ℕ
normalmap =
    filled
      (0 ∷ 0x1B ∷ b'1' ∷ b'2' ∷ b'3' ∷ b'4' ∷ b'5' ∷ b'6' ∷ b'7' ∷ b'8' ∷ b'9' ∷ b'0' ∷ b'-' ∷ b'='
        ∷ 8 ∷ 9 ∷ b'q' ∷ b'w' ∷ b'e' ∷ b'r' ∷ b't' ∷ b'y' ∷ b'u' ∷ b'i' ∷ b'o' ∷ b'p' ∷ b'[' ∷ b']'
        ∷ 10 ∷ 0 ∷ b'a' ∷ b's' ∷ b'd' ∷ b'f' ∷ b'g' ∷ b'h' ∷ b'j' ∷ b'k' ∷ b'l' ∷ b';' ∷ 39 ∷ b'`'
        ∷ 0 ∷ 92 ∷ b'z' ∷ b'x' ∷ b'c' ∷ b'v' ∷ b'b' ∷ b'n' ∷ b'm' ∷ b',' ∷ b'.' ∷ b'/' ∷ 0 ∷ b'*'
        ∷ 0 ∷ b' ' ∷ 0 ∷ 0 ∷ 0 ∷ 0 ∷ 0 ∷ 0 ∷ 0 ∷ 0 ∷ 0 ∷ 0 ∷ 0 ∷ 0 ∷ 0 ∷ b'7' ∷ b'8' ∷ b'9' ∷ b'-'
        ∷ b'4' ∷ b'5' ∷ b'6' ∷ b'+' ∷ b'1' ∷ b'2' ∷ b'3' ∷ b'0' ∷ b'.' ∷ 0 ∷ 0 ∷ 0 ∷ 0 ∷ [])
      ((0xC7, key_home)
        ∷ (0x9C, 10)
        ∷ (0xB5, b'/')
        ∷ (0xC8, key_up)
        ∷ (0xC9, key_pgup)
        ∷ (0xCB, key_lf)
        ∷ (0xCD, key_rt)
        ∷ (0xCF, key_end)
        ∷ (0xD0, key_dn)
        ∷ (0xD1, key_pgdn)
        ∷ (0xD2, key_ins)
        ∷ (0xD3, key_del)
        ∷ [])

unfoldable pub shiftmap : List ℕ
shiftmap =
    filled
      (0 ∷ 0x1B ∷ b'!' ∷ b'@' ∷ b'#' ∷ b'$' ∷ b'%' ∷ b'^' ∷ b'&' ∷ b'*' ∷ b'(' ∷ b')' ∷ b'_' ∷ b'+'
        ∷ 8 ∷ 9 ∷ b'Q' ∷ b'W' ∷ b'E' ∷ b'R' ∷ b'T' ∷ b'Y' ∷ b'U' ∷ b'I' ∷ b'O' ∷ b'P' ∷ b'{' ∷ b'}'
        ∷ 10 ∷ 0 ∷ b'A' ∷ b'S' ∷ b'D' ∷ b'F' ∷ b'G' ∷ b'H' ∷ b'J' ∷ b'K' ∷ b'L' ∷ b':' ∷ b'"' ∷ b'~'
        ∷ 0 ∷ b'|' ∷ b'Z' ∷ b'X' ∷ b'C' ∷ b'V' ∷ b'B' ∷ b'N' ∷ b'M' ∷ b'<' ∷ b'>' ∷ b'?' ∷ 0 ∷ b'*'
        ∷ 0 ∷ b' ' ∷ 0 ∷ 0 ∷ 0 ∷ 0 ∷ 0 ∷ 0 ∷ 0 ∷ 0 ∷ 0 ∷ 0 ∷ 0 ∷ 0 ∷ 0 ∷ b'7' ∷ b'8' ∷ b'9' ∷ b'-'
        ∷ b'4' ∷ b'5' ∷ b'6' ∷ b'+' ∷ b'1' ∷ b'2' ∷ b'3' ∷ b'0' ∷ b'.' ∷ 0 ∷ 0 ∷ 0 ∷ 0 ∷ [])
      ((0xC7, key_home)
        ∷ (0x9C, 10)
        ∷ (0xB5, b'/')
        ∷ (0xC8, key_up)
        ∷ (0xC9, key_pgup)
        ∷ (0xCB, key_lf)
        ∷ (0xCD, key_rt)
        ∷ (0xCF, key_end)
        ∷ (0xD0, key_dn)
        ∷ (0xD1, key_pgdn)
        ∷ (0xD2, key_ins)
        ∷ (0xD3, key_del)
        ∷ [])

unfoldable pub ctlmap : List ℕ
ctlmap =
    filled
      (0 ∷ 0 ∷ 0 ∷ 0 ∷ 0 ∷ 0 ∷ 0 ∷ 0 ∷ 0 ∷ 0 ∷ 0 ∷ 0 ∷ 0 ∷ 0 ∷ 0 ∷ 0 ∷ 17 ∷ 23 ∷ 5 ∷ 18 ∷ 20 ∷ 25
        ∷ 21 ∷ 9 ∷ 15 ∷ 16 ∷ 0 ∷ 0 ∷ 13 ∷ 0 ∷ 1 ∷ 19 ∷ 4 ∷ 6 ∷ 7 ∷ 8 ∷ 10 ∷ 11 ∷ 12 ∷ 0 ∷ 0 ∷ 0 ∷ 0
        ∷ 28 ∷ 26 ∷ 24 ∷ 3 ∷ 22 ∷ 2 ∷ 14 ∷ 13 ∷ 0 ∷ 0 ∷ 239 ∷ 0 ∷ 0 ∷ [])
      ((0x97, key_home)
        ∷ (0xB5, 239)
        ∷ (0xC8, key_up)
        ∷ (0xC9, key_pgup)
        ∷ (0xCB, key_lf)
        ∷ (0xCD, key_rt)
        ∷ (0xCF, key_end)
        ∷ (0xD0, key_dn)
        ∷ (0xD1, key_pgdn)
        ∷ (0xD2, key_ins)
        ∷ (0xD3, key_del)
        ∷ [])

-- ===== src/Kern/Console/Screen.antt =====
-- The output of kern/console.c: `cga_putc` on the text screen and `cons_putc` on all devices. A
-- character is a number of 31 bits. The cursor of the hardware and the waiting for the ports are
-- left out.
pub mod Cells
use sisop_mendez.Base.{
  List, [], drop, if◌then◌else◌, ltb, replicate, set, suc, take, zero, ℕ, ◌%◌, ◌*◌, ◌++◌, ◌+◌, ◌-◌,
  ◌/◌, ◌==◌, ◌^◌, ◌∷◌,
}

abbrev pub crt_cols : ℕ
crt_cols = 80

abbrev pub crt_size : ℕ
crt_size = 25 * crt_cols

-- The memory of the screen, the position, and what the ports were sent, the first one first.
pub record Crt : Type 0 where
  pub crt_buf : List ℕ
  pub crt_pos : ℕ
  pub serial : List ℕ
  pub lpt : List ℕ

abbrev pub u16 : ℕ → ℕ
u16 n = n % 2 ^ 16

-- Without an attribute, black on white.
abbrev pub with_attribute : ℕ → ℕ
with_attribute c = if c / 256 == 0 then c + 0x0700 else c

-- The cases of the switch. All but the tab leave the ports alone.
unfoldable pub backspace : Crt → ℕ → Crt
backspace s c = if s.crt_pos == 0 then s else record s {
  crt_buf = set s.crt_buf (s.crt_pos - 1) (u16 (c / 256 * 256 + b' '));
  crt_pos = s.crt_pos - 1;
}

unfoldable pub carriage_return : Crt → Crt
carriage_return s = record s { crt_pos = s.crt_pos - s.crt_pos % crt_cols }

unfoldable pub newline : Crt → Crt
newline s = carriage_return (record s { crt_pos = u16 (s.crt_pos + crt_cols) })

unfoldable pub write_char : Crt → ℕ → Crt
write_char s c = record s {
  crt_buf = set s.crt_buf s.crt_pos (u16 c);
  crt_pos = u16 (s.crt_pos + 1);
}

unfoldable pub put_cell : Crt → ℕ → Crt
put_cell s c =
    if c % 256 == 8
    then backspace s c
    else if c % 256 == 10
    then newline s
    else if c % 256 == 13
    then carriage_return s
    else write_char s c

-- At the end of the screen its lines move up by one.
unfoldable pub scroll : Crt → Crt
scroll s = if ltb s.crt_pos crt_size then s else record s {
  crt_buf =
      drop crt_cols (take crt_size s.crt_buf)
      ++ (replicate crt_cols (0x0700 + b' ') ++ drop crt_size s.crt_buf);
  crt_pos = s.crt_pos - crt_cols;
}

-- `serial_putc` and `lpt_putc`
unfoldable pub send : Crt → ℕ → Crt
send s c = record s { serial = s.serial ++ (c % 256 ∷ []); lpt = s.lpt ++ (c % 256 ∷ []) }

-- `cons_putc` of a character other than the tab.
unfoldable pub put_plain : Crt → ℕ → Crt
put_plain s c = scroll (put_cell (send s c) (with_attribute c))

-- `cga_putc` of a tab calls `cons_putc` of a blank.
unfoldable pub put_blanks : ℕ → Crt → Crt
put_blanks zero s = s
put_blanks (suc n) s = put_blanks n (put_plain s b' ')

unfoldable pub cons_putc : Crt → ℕ → Crt
cons_putc s c = if c % 256 == 9 then scroll (put_blanks 5 (send s c)) else put_plain s c

unfoldable pub cons_puts : Crt → List ℕ → Crt
cons_puts s [] = s
cons_puts s (c ∷ cs) = cons_puts (cons_putc s c) cs

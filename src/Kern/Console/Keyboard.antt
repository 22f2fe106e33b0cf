-- ===== src/Kern/Console/Keyboard.antt =====
-- The keyboard of kern/console.c: `kbd_proc_data` and `kbd_intr`.
pub mod Case
use Prim.Native.Nat.{bit_and, bit_or, bit_xor}
use sisop_mendez.Base.{
  Bool, List, Option, [], get_or, if◌then◌else◌, leb, none, not, some, suc, zero, ℕ, ◌&&◌, ◌+◌, ◌-◌,
  ◌==◌, ◌||◌, ◌∷◌,
}
use sisop_mendez.Kern.Console.{Cons, cons_intr}
use sisop_mendez.Kern.Console.Keymaps.{
  alt_key, capslock, ctl_key, ctlmap, e0esc, key_del, normalmap, shift_key, shiftcode, shiftmap,
  togglecode,
}
use sisop_mendez.Kern.Types.{word}

pub record Keyboard : Type 0 where
  pub shift : ℕ
  pub rebooted : Bool

-- `~a` on `uint32_t`
abbrev pub complement : ℕ → ℕ
complement a = word - 1 - a

abbrev pub kbs_dib : ℕ
kbs_dib = 0x01

abbrev pub kbs_terr : ℕ
kbs_terr = 0x20

-- `charcode[i]`, for `i` up to 3.
unfoldable pub charcode : ℕ → List ℕ
charcode zero = normalmap
charcode (suc zero) = shiftmap
charcode _ = ctlmap

-- The change of case under CAPSLOCK.
abbrev pub other_case : ℕ → ℕ
other_case c =
    if leb b'a' c && leb c b'z' then c - 32 else if leb b'A' c && leb c b'Z' then c + 32 else c

abbrev pub with_capslock : ℕ → ℕ → ℕ
with_capslock shift c = if bit_and shift capslock == 0 then c else other_case c

-- A key goes down: the end of `kbd_proc_data`, on the scan code with its bit 7.
unfoldable pub press : Keyboard → ℕ → ℕ × Keyboard
press k byte =
    let shift' = bit_xor (bit_or k.shift (get_or shiftcode byte 0)) (get_or togglecode byte 0) in
    let c =
      with_capslock shift' (get_or (charcode (bit_and shift' (bit_or ctl_key shift_key))) byte 0) in
    (
      c,
      record {
        shift = shift';
        rebooted =
            k.rebooted
            || (bit_and (complement shift') (bit_or ctl_key alt_key) == 0 && c == key_del);
      },
    )

abbrev pub clear_bits : ℕ → ℕ → ℕ
clear_bits shift bits = bit_and shift (complement bits)

-- A key goes up.
unfoldable pub release_key : Keyboard → ℕ → Keyboard
release_key k byte =
    let code = if bit_and k.shift e0esc == 0 then bit_and byte 0x7F else byte in
    record k { shift = clear_bits k.shift (bit_or (get_or shiftcode code 0) e0esc) }

-- What `kbd_proc_data` does with the byte that it reads.
unfoldable pub scan : Keyboard → ℕ → ℕ × Keyboard
scan k byte =
    if byte == 0xE0
    then (0, record k { shift = bit_or k.shift e0esc })
    else if not (bit_and byte 0x80 == 0)
    then (0, release_key k byte)
    else if not (bit_and k.shift e0esc == 0)
    then press (record k { shift = clear_bits k.shift e0esc }) (bit_or byte 0x80)
    else press k byte

-- The state of the port and the byte behind it; `none` is the answer -1.
unfoldable pub kbd_proc_data : Keyboard → ℕ × ℕ → Option (ℕ × Keyboard)
kbd_proc_data k (stat, byte) =
    if bit_and stat kbs_dib == 0
    then none
    else if bit_and stat kbs_terr == 0
    then some (scan k byte)
    else none

-- The calls of `kbd_proc_data` of one `cons_intr`: the characters, up to the answer -1, and the
-- state. Behind the readings the port has no byte.
unfoldable pub kbd_chars : Keyboard → List (ℕ × ℕ) → List ℕ × Keyboard
kbd_chars k [] = ([], k)
kbd_chars k (r ∷ rs) = elim (kbd_proc_data k r) [
  | none ↦ ([], k)
  | some (c, k') ↦ let (cs, k'') = kbd_chars k' rs in (c ∷ cs, k'')
]

unfoldable pub kbd_intr : Cons → Keyboard → List (ℕ × ℕ) → Cons × Keyboard
kbd_intr c k rs = let (cs, k') = kbd_chars k rs in (cons_intr c cs, k')

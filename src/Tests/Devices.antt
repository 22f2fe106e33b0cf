-- ===== src/Tests/Devices.antt =====
-- The console and the search for debugging information on concrete inputs.
use sisop_mendez.Base.{
  List, [], arith, false, get_or, length-replicate, refl, replicate, some, true, ℕ, ◌*◌, ◌<◌, ◌∷◌,
  ◌≡◌, ◌≤◌, ◌⊎◌,
}
use sisop_mendez.Kern.Console.{Cons}
use sisop_mendez.Kern.Console.Input.{Queued, put_all_queue, put_queue, take_queue}
use sisop_mendez.Kern.Console.Keyboard.{
  Keyboard, charcode, kbd_chars, kbd_proc_data, press, release_key, scan,
}
use sisop_mendez.Kern.Console.Keyboard.Case.{scan_typed}
use sisop_mendez.Kern.Console.Keymaps.{ctlmap, normalmap, shiftcode, shiftmap, togglecode}
use sisop_mendez.Kern.Console.Screen.{
  Crt, cons_putc, put_blanks, put_cell, put_plain, scroll, send, write_char,
}
use sisop_mendez.Kern.Console.Screen.Cells.{OnScreen, Shows, cons_putc-Shows}
use sisop_mendez.Kern.Console.Sessions.{
  ConsEvent, getc, interrupt, queue_replies, replies, replies-refines,
}
use sisop_mendez.Kern.Debug.{
  Region, Stabs, bisect, bracket, narrow, rightmost, search_back, stab_binsearch,
}
use sisop_mendez.Kern.Debug.Brackets.{Contains, stab_binsearch-Contains}

abbrev empty_console : Cons
empty_console = record { buf = replicate 512 0; rpos = 0; wpos = 0 }

empty_console-Queued : Queued empty_console []
empty_console-Queued = record {
  room = length-replicate {A = ℕ} 512 0;
  rpos_in = omega arith;
  short = omega arith;
  wpos_at = refl;
  bytes = λ i h. absurd (omega arith);
  nonzero = tt;
}

-- Two characters come, and are read in order; then a third one, which comes with the call.
abbrev session : List ConsEvent
session =
    interrupt (b'h' ∷ 0 ∷ b'i' ∷ [])
    ∷ getc true [] []
    ∷ getc false [] []
    ∷ getc true (b'!' ∷ []) []
    ∷ getc true [] []
    ∷ []

replies-refines_example : replies empty_console session ≡ queue_replies [] session
replies-refines_example = replies-refines empty_console [] session empty_console-Queued (
  (omega arith, (omega arith, (omega arith, tt))),
  ((tt, tt), ((tt, tt), (((omega arith, tt), tt), ((tt, tt), tt)))),
)

queue_replies_run : queue_replies [] session ≡ b'h' ∷ b'i' ∷ b'!' ∷ 0 ∷ []
unfolding queue_replies put_all_queue put_queue take_queue
queue_replies_run = refl

abbrev keyboard : Keyboard
keyboard = record { shift = 0; rebooted = false }

-- The left SHIFT goes down, the key of the letter q down and up, SHIFT up, and q down.
abbrev typed : List (ℕ × ℕ)
typed = (1, 0x2A) ∷ (1, 0x10) ∷ (1, 0x90) ∷ (1, 0xAA) ∷ (1, 0x10) ∷ []

typed_run : (kbd_chars keyboard typed).0 ≡ 0 ∷ b'Q' ∷ 0 ∷ 0 ∷ b'q' ∷ []
unfolding kbd_chars kbd_proc_data scan press release_key charcode shiftcode togglecode normalmap
    shiftmap ctlmap
typed_run = refl

-- CTL and the Home key of the arrow block: the table has this key at another code, and gives nothing.
home_run : (kbd_chars keyboard ((1, 0x1D) ∷ (1, 0xE0) ∷ (1, 0x47) ∷ [])).0 ≡ 0 ∷ 0 ∷ 0 ∷ []
unfolding kbd_chars kbd_proc_data scan press release_key charcode shiftcode togglecode normalmap
    shiftmap ctlmap
home_run = refl

-- Mouse data is not read: what the keyboard has behind it does not get through.
mouse_run : (kbd_chars keyboard ((0x21, 0x08) ∷ (1, 0x10) ∷ [])).0 ≡ []
unfolding kbd_chars kbd_proc_data
mouse_run = refl

-- Stabs of type 36, one at 16, 17 and 32 each, behind one of another type.
abbrev stabs : Stabs
stabs i =
    get_or
      (record { n_type = 0; n_value = 0 }
        ∷ record { n_type = 36; n_value = 16 }
        ∷ record { n_type = 36; n_value = 17 }
        ∷ record { n_type = 36; n_value = 32 }
        ∷ [])
      i (record { n_type = 0; n_value = 0 })

-- The address 16 is the second stab's, but the search gives the third one.
next_byte_run : stab_binsearch stabs 0 4 36 16 ≡ some (record { region_left = 2; region_right = 2 })
unfolding stab_binsearch bisect narrow search_back bracket rightmost
next_byte_run = refl

-- An address below all of them gets a range that is not empty.
below_all_run : stab_binsearch stabs 0 4 36 7 ≡ some (record { region_left = 0; region_right = 0 })
unfolding stab_binsearch bisect narrow search_back bracket rightmost
below_all_run = refl

-- Functions of 16 bytes.
abbrev even_stabs : Stabs
even_stabs i = record { n_type = 36; n_value = 16 * i }

stab_binsearch-Contains_example :
    (g : Region) × (stab_binsearch even_stabs 0 9 36 40 ≡ some g)
    × (Contains even_stabs 36 0 9 40 g
        ⊎ ((j : ℕ) → 0 ≤ j → j < 9 → (even_stabs j).n_type ≡ 36 → 40 < (even_stabs j).n_value))
stab_binsearch-Contains_example =
    stab_binsearch-Contains even_stabs 36 0 9 40 (omega arith) (omega arith) (omega arith)
      (λ i j lo less hi ti tj. omega arith) (λ j lo hi t e. omega (arith, e))

-- A screen of blanks, with the position in the last cell.
abbrev full_screen : Crt
full_screen = record { crt_buf = replicate 2000 0x0720; crt_pos = 1999; serial = []; lpt = [] }

full_screen-OnScreen : OnScreen full_screen
full_screen-OnScreen = record {
  room = omega (arith, length-replicate {A = ℕ} 2000 0x0720);
  pos_in = omega arith;
}

cons_putc-Shows_example : Shows full_screen b'a' (cons_putc full_screen b'a')
cons_putc-Shows_example =
    cons_putc-Shows full_screen b'a' full_screen-OnScreen
      (omega arith, omega arith, omega arith, omega arith)

-- A tab is sent as a tab and five blanks.
tab_run :
    (cons_putc (record { crt_buf = []; crt_pos = 0; serial = []; lpt = [] }) 9).serial
    ≡ 9 ∷ 32 ∷ 32 ∷ 32 ∷ 32 ∷ 32 ∷ []
unfolding cons_putc put_blanks put_plain put_cell send scroll write_char
tab_run = refl

scan_typed_example : (scan (scan keyboard 0x3A).1 0xBA).1.shift ≡ 8
unfolding togglecode shiftcode
scan_typed_example = scan_typed keyboard 0x3A (omega arith) (omega arith) refl

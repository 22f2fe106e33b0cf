-- ===== src/Kern/Console/Keyboard/Case.antt =====
-- What the keyboard delivers: bytes, capital letters under SHIFT or CAPSLOCK, and modifiers that last
-- while their keys are down. The tables are checked for every state and scan code.
use Prim.Native.Nat.{bit_and, bit_xor}
use sisop_mendez.Base.{
  ==_iff, All, Bool, List, [], arith, get_or, if◌then◌else◌, inl, inr, leb, ltb, none, not, passes,
  passes_pairs, refl, some, true, ℕ, ◌&&◌, ◌+◌, ◌-◌, ◌<◌, ◌==◌, ◌||◌, ◌∷◌, ◌≡◌, ◌≤◌, ◌⊎◌,
}
use sisop_mendez.Kern.Console.Keyboard.{
  Keyboard, charcode, kbd_chars, kbd_proc_data, press, release_key, scan,
}
use sisop_mendez.Kern.Console.Keymaps.{ctl_key, ctlmap, normalmap, shiftcode, shiftmap, togglecode}

-- `k` with other modifiers.
abbrev state : Bool → ℕ → Keyboard
state b s = record { shift = s; rebooted = b }

abbrev in_range : ℕ × Keyboard → Bool
in_range r = ltb r.0 256 && ltb r.1.shift 128

range_table : (b : Bool) → passes (λ s. passes (λ d. in_range (scan (state b s) d)) 256) 128 ≡ true
unfolding passes shiftcode togglecode normalmap shiftmap ctlmap scan press release_key charcode
range_table b = refl

scan-range :
    (k : Keyboard) (d : ℕ)
    → k.shift < 128
    → d < 256
    → ((scan k d).0 < 256) × ((scan k d).1.shift < 128)
scan-range k d hs hd = ground (
  arith,
  passes_pairs (λ s e. in_range (scan (state k.rebooted s) e)) 128 256 (range_table k.rebooted)
      k.shift d hs hd,
)

kbd_proc_data-cases :
    (k : Keyboard) (stat d : ℕ)
    → (kbd_proc_data k (stat, d) ≡ none) ⊎ (kbd_proc_data k (stat, d) ≡ some (scan k d))
unfolding kbd_proc_data
kbd_proc_data-cases k stat d = ground arith

-- Over readings of bytes, the state of the keyboard stays within its seven bits, and every character
-- that it gives is a byte, and so not the -1 that ends them.
pub kbd_chars-range :
    (k : Keyboard) (rs : List (ℕ × ℕ))
    → k.shift < 128
    → All (λ r. r.1 < 256) rs
    → All (λ c. c < 256) (kbd_chars k rs).0 × ((kbd_chars k rs).1.shift < 128)
unfolding kbd_chars
kbd_chars-range k [] hs h = (tt, hs)
kbd_chars-range k ((stat, d) ∷ rs) hs h =
    let one = scan-range k d hs h.0 in
    let rest = kbd_chars-range (scan k d).1 rs one.1 h.1 in
    elim (kbd_proc_data-cases k stat d) [
      | inl e ↦ rw (kbd_chars, e) (tt, hs)
      | inr e ↦ rw (kbd_chars, e) ((one.0, rest.0), rest.1)
    ]

abbrev letter : ℕ → Bool
letter c = leb b'a' c && leb c b'z'

-- Whether just one of SHIFT and CAPSLOCK is on.
abbrev is_upper : ℕ → Bool
is_upper s = not (bit_and s 9 == 0) && not (bit_and s 9 == 9)

abbrev plain_letter : ℕ → ℕ → Bool
plain_letter s d = letter (get_or normalmap d 0) && bit_and s ctl_key == 0

abbrev has_case : Bool → ℕ → ℕ → Bool
has_case b s d =
    (scan (state b s) d).0
    == (if is_upper s then get_or normalmap d 0 - 32 else get_or normalmap d 0)

case_table :
    (b : Bool) → passes (λ s. passes (λ d. not (plain_letter s d) || has_case b s d) 128) 64 ≡ true
unfolding passes shiftcode togglecode normalmap shiftmap ctlmap scan press charcode
case_table b = refl

-- Without CTL and behind no escape, the key of a letter gives the capital if just one of SHIFT and
-- CAPSLOCK is on, and the small letter otherwise.
pub scan-letter :
    (k : Keyboard) (d : ℕ)
    → k.shift < 64
    → d < 128
    → bit_and k.shift ctl_key ≡ 0
    → b'a' ≤ get_or normalmap d 0
    → get_or normalmap d 0 ≤ b'z'
    → (scan k d).0 ≡ (if is_upper k.shift then get_or normalmap d 0 - 32 else get_or normalmap d 0)
scan-letter k d hs hd hc ha hz =
    let t =
      passes_pairs (λ s e. not (plain_letter s e) || has_case k.rebooted s e) 64 128
        (case_table k.rebooted) k.shift d hs hd in
    let p : plain_letter k.shift d ≡ true = ground arith in
    let g : has_case k.rebooted k.shift d ≡ true = ground (arith, p, t) in (==_iff _ _).0 g

abbrev comes_back : Bool → ℕ → ℕ → Bool
comes_back b s d =
    (scan (scan (state b s) d).1 (d + 128)).1.shift == bit_xor s (get_or togglecode d 0)

comes_back_table :
    (b : Bool)
    → passes
        (λ s. passes (λ d. not (bit_and s (get_or shiftcode d 0) == 0) || comes_back b s d) 96)
        64
      ≡ true
unfolding passes shiftcode togglecode normalmap shiftmap ctlmap scan press release_key charcode
comes_back_table b = refl

-- Behind no escape, a key that was not held as a modifier, pressed and released, leaves the
-- modifiers as they were, but for the lock that it toggles.
pub scan_typed :
    (k : Keyboard) (d : ℕ)
    → k.shift < 64
    → d < 96
    → bit_and k.shift (get_or shiftcode d 0) ≡ 0
    → (scan (scan k d).1 (d + 128)).1.shift ≡ bit_xor k.shift (get_or togglecode d 0)
scan_typed k d hs hd hc =
    let t =
      passes_pairs (λ s e. not (bit_and s (get_or shiftcode e 0) == 0) || comes_back k.rebooted s e)
        64 96 (comes_back_table k.rebooted) k.shift d hs hd in
    let p : (bit_and k.shift (get_or shiftcode d 0) == 0) ≡ true = (==_iff _ _).1 hc in
    let g : comes_back k.rebooted k.shift d ≡ true = ground (arith, p, t) in (==_iff _ _).0 g

-- ===== src/Kern/Console/Screen/Cells.antt =====
-- The position stays on the screen, and a character stands where it was written.
use sisop_mendez.Base.{
  ==_iff, Bool-cases, List, [], ap, arith, drop, false, get_or, get_or-drop, get_or-set_ne,
  get_or-set_self, if◌then◌else◌, inl, inr, length, length-append, length-drop, length-replicate,
  length-set, length-take, ltb, refl, replicate, set, suc, sym, take, true, zero, ℕ, ◌%◌, ◌*◌, ◌++◌,
  ◌+◌, ◌-◌, ◌/◌, ◌<◌, ◌==◌, ◌∙◌, ◌∷◌, ◌≡◌, ◌≢◌, ◌≤◌,
}
use sisop_mendez.Kern.Console.Screen.{
  Crt, backspace, carriage_return, cons_putc, cons_puts, crt_cols, crt_size, newline, put_blanks,
  put_cell, put_plain, scroll, send, u16, with_attribute, write_char,
}

pub record OnScreen (s : Crt) : Type 0 where
  pub room : crt_size ≤ length s.crt_buf
  pub pos_in : s.crt_pos < crt_size

-- In front of `scroll` the position may be one line too far.
record NearScreen (s : Crt) : Type 0 where
  near_room : crt_size ≤ length s.crt_buf
  near_pos : s.crt_pos < crt_size + crt_cols

length-scrolled :
    (b : List ℕ) (x : ℕ)
    → 2000 ≤ length b
    → length (drop 80 (take 2000 b) ++ (replicate 80 x ++ drop 2000 b)) ≡ length b
length-scrolled b x h = omega (
  arith,
  length-append (drop 80 (take 2000 b)) (replicate 80 x ++ drop 2000 b),
  length-append (replicate 80 x) (drop 2000 b),
  length-drop 80 (take 2000 b),
  length-take 2000 b,
  length-replicate 80 x,
  length-drop 2000 b,
)

scroll-OnScreen : (s : Crt) → NearScreen s → OnScreen (scroll s)
unfolding scroll
scroll-OnScreen s h = elim (Bool-cases (ltb s.crt_pos crt_size)) [
  | inl e ↦ rw e (record { room = h.near_room; pos_in = ground (arith, e) })
  | inr e ↦ rw e (record {
    room = omega (arith, h.near_room, length-scrolled s.crt_buf (0x0700 + b' ') h.near_room);
    pos_in = omega (arith, h.near_pos);
  })
]

put_cell-NearScreen : (s : Crt) (c : ℕ) → OnScreen s → NearScreen (put_cell s c)
unfolding put_cell backspace newline carriage_return write_char
put_cell-NearScreen s c h = record {
  near_room = ground (
    arith,
    h.room,
    length-set s.crt_buf (s.crt_pos - 1) (u16 (c / 256 * 256 + b' ')),
    length-set s.crt_buf s.crt_pos (u16 c),
  );
  near_pos = ground (arith, h.pos_in);
}

put_plain-OnScreen : (s : Crt) (c : ℕ) → OnScreen s → OnScreen (put_plain s c)
unfolding put_plain send
put_plain-OnScreen s c h = scroll-OnScreen _ (
    put_cell-NearScreen (send s c) (with_attribute c) (record { room = h.room; pos_in = h.pos_in }))

put_blanks-OnScreen : (n : ℕ) (s : Crt) → OnScreen s → OnScreen (put_blanks n s)
unfolding put_blanks
put_blanks-OnScreen zero s h = h
put_blanks-OnScreen (suc n) s h =
    put_blanks-OnScreen n (put_plain s b' ') (put_plain-OnScreen s b' ' h)

cons_putc-OnScreen : (s : Crt) (c : ℕ) → OnScreen s → OnScreen (cons_putc s c)
unfolding cons_putc send
cons_putc-OnScreen s c h =
    let blanks = put_blanks-OnScreen 5 (send s c) (record { room = h.room; pos_in = h.pos_in }) in
    elim (Bool-cases (c % 256 == 9)) [
      | inl e ↦ rw e (
          scroll-OnScreen _
            (record { near_room = blanks.room; near_pos = omega (arith, blanks.pos_in) }))
      | inr e ↦ rw e (put_plain-OnScreen s c h)
    ]

-- No text takes the position off the screen, and so no character is written outside it.
pub cons_puts-OnScreen : (s : Crt) (cs : List ℕ) → OnScreen s → OnScreen (cons_puts s cs)
unfolding cons_puts
cons_puts-OnScreen s [] h = h
cons_puts-OnScreen s (c ∷ cs) h = cons_puts-OnScreen (cons_putc s c) cs (cons_putc-OnScreen s c h)

-- How far `scroll` moves the cells after one character.
abbrev moved : Crt → ℕ
moved s = if s.crt_pos == 1999 then 80 else 0

get_or-take : (b : List ℕ) (n i d : ℕ) → i < n → get_or (take n b) i d ≡ get_or b i d
get_or-take b zero i d h = absurd (omega arith)
get_or-take [] (suc n) i d h = refl
get_or-take (x ∷ b) (suc n) zero d h = refl
get_or-take (x ∷ b) (suc n) (suc i) d h = get_or-take b n i d (omega arith)

get_or-append_left :
    (xs ys : List ℕ) (i d : ℕ) → i < length xs → get_or (xs ++ ys) i d ≡ get_or xs i d
get_or-append_left [] ys i d h = absurd (omega arith)
get_or-append_left (x ∷ xs) ys zero d h = refl
get_or-append_left (x ∷ xs) ys (suc i) d h = get_or-append_left xs ys i d (omega arith)

get_or-scrolled :
    (b : List ℕ) (x j : ℕ)
    → 2000 ≤ length b
    → 80 ≤ j
    → j < 2000
    → get_or (drop 80 (take 2000 b) ++ (replicate 80 x ++ drop 2000 b)) (j - 80) 0 ≡ get_or b j 0
get_or-scrolled b x j room lo hi =
    let len : length (drop 80 (take 2000 b)) ≡ 1920 =
      omega (arith, length-drop 80 (take 2000 b), length-take 2000 b) in
    let back : 80 + (j - 80) ≡ j = omega arith in
    get_or-append_left (drop 80 (take 2000 b)) (replicate 80 x ++ drop 2000 b) (j - 80) 0
      (omega (arith, len))
    ∙ (get_or-drop (take 2000 b) 80 (j - 80) 0 ∙ rw back (get_or-take b 2000 j 0 hi))

-- What a character other than backspace, newline, return and tab leaves.
pub record Shows (s : Crt) (c : ℕ) (s' : Crt) : Type 0 where
  pub shown_pos : s'.crt_pos + moved s ≡ s.crt_pos + 1
  pub shown_cell : get_or s'.crt_buf (s'.crt_pos - 1) 0 ≡ u16 (with_attribute c)
  pub others :
      (j : ℕ)
      → moved s ≤ j
      → j < crt_size
      → j ≢ s.crt_pos
      → get_or s'.crt_buf (j - moved s) 0 ≡ get_or s.crt_buf j 0
  pub sent_serial : s'.serial ≡ s.serial ++ (c % 256 ∷ [])
  pub sent_lpt : s'.lpt ≡ s.lpt ++ (c % 256 ∷ [])

abbrev pub IsGraphic : ℕ → Type 0
IsGraphic c = (c % 256 ≢ 8) × (c % 256 ≢ 9) × (c % 256 ≢ 10) × (c % 256 ≢ 13)

put_cell-graphic :
    (s : Crt) (c : ℕ)
    → IsGraphic c
    → put_cell s (with_attribute c) ≡ write_char s (with_attribute c)
unfolding put_cell
put_cell-graphic s c g =
    let low : with_attribute c % 256 ≡ c % 256 = ground arith in
    let e8 : (with_attribute c % 256 == 8) ≡ false = ground (arith, low) in
    let e10 : (with_attribute c % 256 == 10) ≡ false = ground (arith, low) in
    let e13 : (with_attribute c % 256 == 13) ≡ false = ground (arith, low) in rw (e8, e10, e13) refl

cons_putc-graphic :
    (s : Crt) (c : ℕ)
    → IsGraphic c
    → cons_putc s c ≡ scroll (write_char (send s c) (with_attribute c))
unfolding cons_putc put_plain
cons_putc-graphic s c g =
    let e : (c % 256 == 9) ≡ false = ground arith in
    rw e (ap scroll (put_cell-graphic (send s c) c g))

pub cons_putc-Shows : (s : Crt) (c : ℕ) → OnScreen s → IsGraphic c → Shows s c (cons_putc s c)
unfolding write_char send scroll
cons_putc-Shows s c h g =
    let v = u16 (with_attribute c) in
    let b = set s.crt_buf s.crt_pos v in
    let len : length b ≡ length s.crt_buf = length-set s.crt_buf s.crt_pos v in
    let here : get_or b s.crt_pos 0 ≡ v =
      get_or-set_self s.crt_buf s.crt_pos v 0 (omega (arith, h.room, h.pos_in)) in
    let there : (j : ℕ) → j ≢ s.crt_pos → get_or b j 0 ≡ get_or s.crt_buf j 0 =
      λ j ne. get_or-set_ne s.crt_buf v 0 (λ e'. ne (sym e')) in
    rw (cons_putc-graphic s c g) (elim (Bool-cases (s.crt_pos == 1999)) [
      | inl e ↦
          let last : s.crt_pos ≡ 1999 = (==_iff _ _).0 e in
          let full : ltb (u16 (s.crt_pos + 1)) crt_size ≡ false = ground (arith, last) in
          let at : (u16 (s.crt_pos + 1) - 80) - 1 ≡ s.crt_pos - 80 = omega (arith, last) in
          let m : moved s ≡ 80 = rw e refl in
          let up : (j : ℕ)
              → 80 ≤ j
              → j < 2000
              → get_or (drop 80 (take 2000 b) ++ (replicate 80 (0x0700 + b' ') ++ drop 2000 b))
                  (j - 80) 0
                ≡ get_or b j 0 =
            λ j lo hi. get_or-scrolled b (0x0700 + b' ') j (omega (arith, len, h.room)) lo hi in
          rw full (record {
            shown_pos = omega (arith, last, m);
            shown_cell = rw at (up s.crt_pos (omega (arith, last)) (omega (arith, last)) ∙ here);
            others = λ j lo hi ne. rw m (up j (omega (arith, lo, m)) hi ∙ there j ne);
            sent_serial = refl;
            sent_lpt = refl;
          })
      | inr e ↦
          let room : ltb (u16 (s.crt_pos + 1)) crt_size ≡ true = ground (arith, e, h.pos_in) in
          let at : u16 (s.crt_pos + 1) - 1 ≡ s.crt_pos = omega (arith, h.pos_in) in
          let m : moved s ≡ 0 = rw e refl in
          rw room (record {
            shown_pos = omega (arith, h.pos_in, m);
            shown_cell = rw at here;
            others =
                λ j lo hi ne. (let z : j - moved s ≡ j = omega (arith, m) in rw z (there j ne));
            sent_serial = refl;
            sent_lpt = refl;
          })
    ])

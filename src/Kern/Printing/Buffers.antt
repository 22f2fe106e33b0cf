-- ===== src/Kern/Printing/Buffers.antt =====
-- What `vsnprintf` leaves in its buffer.
use sisop_mendez.Base.{
  Bool-cases, List, [], ap, arith, drop, false, inl, inr, length, length-append, length-take, ltb,
  refl, set, some, suc, sym, take, true, zero, ℕ, ◌%◌, ◌++◌, ◌+◌, ◌-◌, ◌<◌, ◌^◌, ◌∙◌, ◌∷◌, ◌≡◌, ◌≤◌,
}
use sisop_mendez.Kern.Paging.Removal.{place}
use sisop_mendez.Kern.Printing.{Sprintbuf, put_all, sprintputch, vsnprintf}
use sisop_mendez.Kern.Types.{slt, word}

-- The characters as bytes.
abbrev pub chars : List ℕ → List ℕ
chars [] = []
chars (ch ∷ out) = ch % 256 ∷ chars out

set-behind :
    (p : List ℕ) (x : ℕ) (rest : List ℕ) (v : ℕ) → set (p ++ x ∷ rest) (length p) v ≡ p ++ v ∷ rest
set-behind [] x rest v = refl
set-behind (y ∷ p) x rest v = ap (λ t. y ∷ t) (set-behind p x rest v)

append_last : (p : List ℕ) (x : ℕ) (rest : List ℕ) → p ++ x ∷ rest ≡ (p ++ x ∷ []) ++ rest
append_last [] x rest = refl
append_last (y ∷ p) x rest = ap (λ t. y ∷ t) (append_last p x rest)

length-last : (p : List ℕ) (x : ℕ) → length (p ++ x ∷ []) ≡ length p + 1
length-last p x = length-append p (x ∷ [])

-- The buffer holds `p`, and behind it there is room for `room` bytes.
record Filled (p rest : List ℕ) (room : ℕ) (b : Sprintbuf) : Type 0 where
  holds : b.bytes ≡ p ++ rest
  at_end : b.buf ≡ length p
  limit : b.ebuf ≡ length p + room
  fits : room < length rest

-- Without room, the characters are counted only.
put_all-full :
    (out : List ℕ) (b : Sprintbuf)
    → b.ebuf ≤ b.buf
    → ((put_all out b).bytes ≡ b.bytes) × ((put_all out b).buf ≡ b.buf)
unfolding put_all sprintputch
put_all-full [] b full = (refl, refl)
put_all-full (ch ∷ out) b full =
    let stop : ltb b.buf b.ebuf ≡ false = ground arith in
    rw (put_all, stop) (put_all-full out (record b { cnt = (b.cnt + 1) % word }) full)

put_all-Filled :
    (out p rest : List ℕ) (room : ℕ) (b : Sprintbuf)
    → Filled p rest room b
    → let text = take room (chars out) in
      ((put_all out b).bytes ≡ p ++ (text ++ drop (length text) rest))
      × ((put_all out b).buf ≡ length p + length text)
unfolding put_all sprintputch
put_all-Filled out p rest zero b f =
    let (bytes, buf) = put_all-full out b (omega (arith, f.at_end, f.limit)) in
    (bytes ∙ f.holds, omega (arith, buf, f.at_end))
put_all-Filled [] p rest (suc room) b f = (f.holds, omega (arith, f.at_end))
put_all-Filled (ch ∷ out) p [] (suc room) b f = absurd (omega (arith, f.fits))
put_all-Filled (ch ∷ out) p (x ∷ rest) (suc room) b f =
    let go : ltb b.buf b.ebuf ≡ true = ground (arith, f.at_end, f.limit) in
    let b' : Sprintbuf = record b {
      cnt = (b.cnt + 1) % word;
      bytes = set b.bytes b.buf (ch % 256);
      buf = b.buf + 1;
    } in
    let f' : Filled (p ++ ch % 256 ∷ []) rest room b' = record {
      holds =
          rw (f.holds, f.at_end, set-behind p x rest (ch % 256)) (append_last p (ch % 256) rest);
      at_end = omega (arith, f.at_end, length-last p (ch % 256));
      limit = omega (arith, f.limit, length-last p (ch % 256));
      fits = omega (arith, f.fits);
    } in
    let (bytes, buf) = put_all-Filled out (p ++ ch % 256 ∷ []) rest room b' f' in
    rw (put_all, go)
      (bytes ∙ sym (append_last p (ch % 256) _), omega (arith, buf, length-last p (ch % 256)))

putch-cnt : (ch : ℕ) (b : Sprintbuf) → (sprintputch ch b).cnt ≡ (b.cnt + 1) % word
unfolding sprintputch
putch-cnt ch b = elim (Bool-cases (ltb b.buf b.ebuf)) [
  | inl room ↦ rw room refl
  | inr full ↦ rw full refl
]

put_all-cnt :
    (out : List ℕ) (b : Sprintbuf)
    → b.cnt < word
    → (put_all out b).cnt ≡ (b.cnt + length out) % word
unfolding put_all
put_all-cnt [] b small = omega arith
put_all-cnt (ch ∷ out) b small =
    let one = putch-cnt ch b in
    omega (arith, one, put_all-cnt out (sprintputch ch b) (omega (arith, one)))

drop-next : (k : ℕ) (xs : List ℕ) → k < length xs → (x : ℕ) × (drop k xs ≡ x ∷ drop (suc k) xs)
drop-next k [] h = absurd (omega arith)
drop-next zero (x ∷ xs) h = (x, refl)
drop-next (suc k) (x ∷ xs) h = drop-next k xs (omega arith)

-- For a size from 1 to 2^31 - 1 that the buffer has, and less than 2^32 characters, `vsnprintf`
-- leaves the first of them, one less than the size at most, and a NUL behind them; the bytes
-- behind that NUL are as they were. It returns how many characters there were.
pub vsnprintf_lem :
    (buf out : List ℕ) (n : ℕ)
    → suc n < 2 ^ 31
    → n < length buf
    → length out < word
    → let text = take n (chars out) in
      vsnprintf buf (suc n) out ≡ some (text ++ 0 ∷ drop (suc (length text)) buf, length out)
unfolding vsnprintf
vsnprintf_lem buf out n small room few =
    let text = take n (chars out) in
    let b : Sprintbuf = record { bytes = buf; buf = 0; ebuf = n; cnt = 0 } in
    let sized : slt (suc n) 1 ≡ false = ground arith in
    let limit : suc n - 1 ≡ n = omega arith in
    let (bytes, place) =
      put_all-Filled out [] buf n b
        (record { holds = refl; at_end = refl; limit = omega arith; fits = room }) in
    let place' : (put_all out b).buf ≡ length text = omega (arith, place) in
    let short : length text < length buf = omega (arith, length-take n (chars out)) in
    let (x, behind) = drop-next (length text) buf short in
    let count : (put_all out b).cnt ≡ length out = omega (arith, put_all-cnt out b (omega arith)) in
    rw
      (
        sized,
        limit,
        bytes,
        place',
        count,
        behind,
        set-behind text x (drop (suc (length text)) buf) 0,
      )
      refl

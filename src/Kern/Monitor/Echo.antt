-- ===== src/Kern/Monitor/Echo.antt =====
-- What `readline` has in its buffer is what its echo leaves on the screen.
use sisop_mendez.Base.{
  All, Bool-cases, List, Option, [], arith, false, if◌then◌else◌, inl, inr, leb, length,
  length-append, length-take, ltb, none, refl, some, take, ℕ, ◌%◌, ◌&&◌, ◌++◌, ◌-◌, ◌<◌, ◌==◌, ◌||◌,
  ◌∷◌, ◌≡◌,
}
use sisop_mendez.Kern.Monitor.{
  Line, Typed, entered, is_erase, line_size, read_chars, read_error, readline, type_char, waits,
}

-- The text that an echo shows, the last character first: 8 takes back the one before.
unfoldable pub shown : List ℕ → List ℕ
shown [] = []
shown (c ∷ echo) =
    if c == 8 then take (length (shown echo) - 1) (shown echo) else shown echo ++ c ∷ []

pub record IsEchoed (t : Typed) : Type 0 where
  pub short : length t.text < line_size
  pub same : shown t.echo ≡ t.text

type_char-IsEchoed : (t : Typed) (c : ℕ) → c < 256 → IsEchoed t → IsEchoed (type_char t c)
unfolding type_char shown
type_char-IsEchoed t c byte h = elim (Bool-cases (is_erase c && ltb 0 (length t.text))) [
  | inl e ↦
      rw (type_char, e)
        (record {
          short = omega (arith, h.short, length-take (length t.text - 1) t.text);
          same = rw (h.same) refl;
        })
  | inr ne ↦ elim (Bool-cases (leb b' ' c && ltb (length t.text) (line_size - 1))) [
    | inl g ↦
        let low : c % 256 ≡ c = omega arith in
        let plain : (c == 8) ≡ false = ground (arith, g) in
        rw (type_char, ne, g)
          (record {
            short = ground (arith, g, length-append t.text ((c % 256) ∷ []));
            same = rw (plain, low, h.same) refl;
          })
    | inr ng ↦ rw (type_char, ne, ng) h
  ]
]

-- What `readline` may end with: nothing, or a line that fits its buffer with the NUL and that the
-- echo shows, in front of a newline.
pub data IsRead : Line → Type 0 where
  no_line : IsRead read_error
  still : (t : Typed) → IsEchoed t → IsRead (waits t)
  whole : (t : Typed) → IsEchoed t → IsRead (entered (record t { echo = 10 ∷ t.echo }))

abbrev pub IsByte : Option ℕ → Type 0
IsByte none = Unit
IsByte (some c) = c < 256

read_chars-IsRead :
    (t : Typed) (cs : List (Option ℕ)) → All IsByte cs → IsEchoed t → IsRead (read_chars t cs)
unfolding read_chars
read_chars-IsRead t [] b h = still t h
read_chars-IsRead t (none ∷ cs) b h = no_line
read_chars-IsRead t (some c ∷ cs) b h = elim (Bool-cases (c == 10 || c == 13)) [
  | inl e ↦ rw (read_chars, e) (whole t h)
  | inr ne ↦
      rw (read_chars, ne) (read_chars-IsRead (type_char t c) cs b.1 (type_char-IsEchoed t c b.0 h))
]

-- `readline` on bytes, whatever is typed and erased, keeps its line and the NUL inside its buffer,
-- and the line that it gives is the text that its echo shows.
pub readline-IsRead : (cs : List (Option ℕ)) → All IsByte cs → IsRead (readline cs)
unfolding shown
readline-IsRead cs b =
    read_chars-IsRead (record { text = []; echo = [] }) cs b
      (record { short = omega arith; same = refl })

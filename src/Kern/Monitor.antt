-- ===== src/Kern/Monitor.antt =====
-- lib/readline.c and the command line of kern/monitor.c. The input is what `getchar` gives, `none`
-- being a negative number; a prompt is only printed.
pub mod Echo
use sisop_mendez.Base.{
  Bool, List, Option, [], false, if◌then◌else◌, leb, length, ltb, none, some, suc, take, true, zero,
  ℕ, ◌%◌, ◌&&◌, ◌++◌, ◌-◌, ◌==◌, ◌||◌, ◌∷◌,
}

abbrev pub line_size : ℕ
line_size = 1024

-- The bytes of `buf` up to `i`, and what was echoed, the last one first.
pub record Typed : Type 0 where
  pub text : List ℕ
  pub echo : List ℕ

abbrev pub is_erase : ℕ → Bool
is_erase c = c == 8 || c == 0x7F

-- A character that does not end the line.
unfoldable pub type_char : Typed → ℕ → Typed
type_char t c =
    if is_erase c && ltb 0 (length t.text)
    then record { text = take (length t.text - 1) t.text; echo = 8 ∷ t.echo }
    else if leb b' ' c && ltb (length t.text) (line_size - 1)
    then record { text = t.text ++ (c % 256) ∷ []; echo = c ∷ t.echo }
    else t

-- `none` is NULL, after a read error; without an end of the line `readline` still waits.
pub data Line : Type 0 where
  read_error : Line
  waits : Typed → Line
  entered : Typed → Line

unfoldable pub read_chars : Typed → List (Option ℕ) → Line
read_chars t [] = waits t
read_chars t (none ∷ cs) = read_error
read_chars t (some c ∷ cs) = elim (c == 10 || c == 13) [
  | true ↦ entered (record t { echo = 10 ∷ t.echo })
  | false ↦ read_chars (type_char t c) cs
]

abbrev pub readline : List (Option ℕ) → Line
readline cs = read_chars (record { text = []; echo = [] }) cs

abbrev pub max_args : ℕ
max_args = 16

-- `strchr(WHITESPACE, c)`
abbrev pub is_white : ℕ → Bool
is_white c = c == 9 || c == 13 || c == 10 || c == b' '

-- The loop of `runcmd`: the words, with the number of those that may come, and the one that is
-- being scanned, if there is one; `none` is the message on too many.
unfoldable pub push_letter : ℕ → Option (List (List ℕ)) → Option (List (List ℕ))
push_letter c none = none
push_letter c (some []) = some ((c ∷ []) ∷ [])
push_letter c (some (w ∷ ws)) = some ((c ∷ w) ∷ ws)

unfoldable pub push_word : Option (List (List ℕ)) → Option (List (List ℕ))
push_word none = none
push_word (some ws) = some ([] ∷ ws)

unfoldable pub words_from : ℕ → Bool → List ℕ → Option (List (List ℕ))
words_from left scanning [] = if scanning then some ([] ∷ []) else some []
words_from left scanning (c ∷ s) = elim (is_white c) [
  | true ↦ if scanning then push_word (words_from left false s) else words_from left false s
  | false ↦
      if scanning
      then push_letter c (words_from left true s)
      else elim left [ zero ↦ none | suc n ↦ push_letter c (words_from n true s) ]
]

-- The arguments of a line that `runcmd` takes.
abbrev pub arguments : List ℕ → Option (List (List ℕ))
arguments buf = words_from (max_args - 1) false buf

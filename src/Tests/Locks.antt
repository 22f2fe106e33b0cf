-- ===== src/Tests/Locks.antt =====
-- Two CPUs at the kernel lock, and a line at the monitor.
use sisop_mendez.Base.{List, Option, [], arith, refl, some, ℕ, ◌++◌, ◌∷◌, ◌≡◌}
use sisop_mendez.Kern.Locks.{
  Machine, inside, is_cpu, move_to, next_access, outside, run_schedule, spin_initlock, spinning,
}
use sisop_mendez.Kern.Locks.Exclusion.{IsExclusive, run_schedule-IsExclusive}
use sisop_mendez.Kern.Monitor.{
  arguments, entered, push_letter, push_word, read_chars, readline, type_char, words_from,
}
use sisop_mendez.Kern.Monitor.Echo.{IsRead, readline-IsRead}

abbrev machine : Machine
machine = record { lock = spin_initlock; places = λ i. outside }

machine-IsExclusive : IsExclusive machine
unfolding is_cpu
machine-IsExclusive = record {
  calm = λ i. refl;
  taken = λ i own. absurd (cc);
  single = λ i j own. absurd (cc);
  marked = λ i. refl;
}

-- CPU 1 waits while CPU 0 has the lock.
abbrev schedule : List ℕ
schedule = 0 ∷ 0 ∷ 1 ∷ 0 ∷ 1 ∷ 1 ∷ []

run_schedule-IsExclusive_example : IsExclusive (run_schedule machine schedule)
run_schedule-IsExclusive_example = run_schedule-IsExclusive machine schedule machine-IsExclusive

waits_run : (run_schedule machine schedule).places 1 ≡ spinning
unfolding run_schedule next_access move_to is_cpu
waits_run = refl

gets_it_run : (run_schedule machine (schedule ++ 0 ∷ 0 ∷ 1 ∷ 1 ∷ [])).places 1 ≡ inside
unfolding run_schedule next_access move_to is_cpu
gets_it_run = refl

-- "hx", the x erased, "i", and return.
abbrev keys : List (Option ℕ)
keys = some b'h' ∷ some b'x' ∷ some 8 ∷ some b'i' ∷ some 13 ∷ []

readline-IsRead_example : IsRead (readline keys)
readline-IsRead_example =
    readline-IsRead keys
      (omega arith, (omega arith, (omega arith, (omega arith, (omega arith, tt)))))

readline_run :
    readline keys
    ≡ entered (record { text = b'h' ∷ b'i' ∷ []; echo = 10 ∷ b'i' ∷ 8 ∷ b'x' ∷ b'h' ∷ [] })
unfolding read_chars type_char
readline_run = refl

-- DEL on an empty line goes into the line.
del_run :
    readline (some 0x7F ∷ some 13 ∷ [])
    ≡ entered (record { text = 0x7F ∷ []; echo = 10 ∷ 0x7F ∷ [] })
unfolding read_chars type_char
del_run = refl

arguments_run :
    arguments (b' ' ∷ b'h' ∷ b' ' ∷ 9 ∷ b'i' ∷ b'j' ∷ [])
    ≡ some ((b'h' ∷ []) ∷ (b'i' ∷ b'j' ∷ []) ∷ [])
unfolding words_from push_word push_letter
arguments_run = refl

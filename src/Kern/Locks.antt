-- ===== src/Kern/Locks.antt =====
-- kern/spinlock.c with DEBUG_SPINLOCK, on CPUs that take the lock, hold it and release it, again and
-- again. A step is one atomic `xchg`, one write of `cpu`, or a check of `holding`, with the write that
-- follows it in `spin_unlock`. A schedule names the CPU of each step.
pub mod Exclusion
use sisop_mendez.Base.{
  Bool, List, Option, [], false, if◌then◌else◌, none, not, some, ℕ, ◌&&◌, ◌==◌, ◌∷◌,
}

-- `struct spinlock`; `cpu` is `none` when it is 0. The call stack is not kept.
pub record Spinlock : Type 0 where
  pub locked : ℕ
  pub cpu : Option ℕ

-- Where a CPU is: outside, in the loop of `spin_lock`, behind it, with the lock, behind the writes of
-- `spin_unlock`, or in a panic.
pub data Place : Type 0 where
  outside spinning acquired inside releasing panicked : Place

pub record Machine : Type 0 where
  pub lock : Spinlock
  pub places : ℕ → Place

unfoldable pub move_to : (ℕ → Place) → ℕ → Place → ℕ → Place
move_to places i p j = if j == i then p else places j

unfoldable pub is_cpu : Option ℕ → ℕ → Bool
is_cpu none i = false
is_cpu (some c) i = c == i

abbrev pub holding : Spinlock → ℕ → Bool
holding lk i = not (lk.locked == 0) && is_cpu lk.cpu i

abbrev pub spin_initlock : Spinlock
spin_initlock = record { locked = 0; cpu = none }

-- The next access of the CPU `i`, which is at the given place.
unfoldable pub next_access : Machine → ℕ → Place → Machine
next_access m i outside = record m {
  places = move_to m.places i (if holding m.lock i then panicked else spinning);
}
next_access m i spinning = record {
  lock = record (m.lock) { locked = 1 };
  places = move_to m.places i (if m.lock.locked == 0 then acquired else spinning);
}
next_access m i acquired = record {
  lock = record (m.lock) { cpu = some i };
  places = move_to m.places i inside;
}
next_access m i inside =
    if holding m.lock i
    then record { lock = record (m.lock) { cpu = none }; places = move_to m.places i releasing }
    else record m { places = move_to m.places i panicked }
next_access m i releasing = record {
  lock = record (m.lock) { locked = 0 };
  places = move_to m.places i outside;
}
next_access m i panicked = m

abbrev pub step : Machine → ℕ → Machine
step m i = next_access m i (m.places i)

unfoldable pub run_schedule : Machine → List ℕ → Machine
run_schedule m [] = m
run_schedule m (i ∷ is) = run_schedule (step m i) is

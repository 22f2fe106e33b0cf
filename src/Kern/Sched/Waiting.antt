-- ===== src/Kern/Sched/Waiting.antt =====
-- What round robin gives those that wait, and where its loop has no end.
use mathlib.Core.Path.{subst}
use sisop_mendez.Base.{
  Bool, arith, false, inl, inr, none, refl, some, true, ℕ, ◌+◌, ◌<◌, ◌≡◌, ◌≢◌, ◌≤◌,
}
use sisop_mendez.Kern.Sched.{NextStep, runnable, runs, sched_yield, start_index}
use sisop_mendez.Kern.Sched.Choice.{distance, search-endless}
use sisop_mendez.Kern.Sched.RoundRobin.{Follows, sched_yield-Follows}
use sisop_mendez.Kern.Types.{Kernel, envx, nenv}

contradiction : {b : Bool} → b ≡ false → b ≡ true → ⊥
contradiction h h' = cc (h, h')

closer :
    (s n m : ℕ)
    → s < nenv
    → n + 1 < nenv
    → m < nenv
    → m ≢ n
    → (distance s m < distance s n → ⊥)
    → distance (n + 1) m < distance s m
closer s n m h h' h'' other later = omega arith

-- When round robin `sched_yield` starts at an index inside `envs` with 1024 rounds or more, and
-- lets an environment run that is not in the last slot and whose id names its slot, every other
-- runnable environment of the array stays runnable and comes closer to its turn.
pub sched_yield-closer :
    (fuel : ℕ) (k k' : Kernel) (n m : ℕ)
    → start_index k < nenv
    → nenv ≤ fuel
    → sched_yield fuel k ≡ some (runs n k')
    → envx (k'.envs n).env_id ≡ n
    → n + 1 < nenv
    → m < nenv
    → runnable (k.envs m) ≡ true
    → m ≢ n
    → (runnable (k'.envs m) ≡ true) × (distance (start_index k') m < distance (start_index k) m)
sched_yield-closer fuel k k' n m h enough eq id h' h'' waits other =
    let (o, eq', follows) = sched_yield-Follows fuel k h enough in
    let (run, found) = follows-runs o follows (cc (eq, eq')) in
    (
      rw (run.waiting m waits other) waits,
      rw (run.current, id)
          (elim found [
            | inl first ↦
                closer (start_index k) n m h h' h'' other
                  (λ l. contradiction (first.2 m h'' l) waits)
            | inr (no_one, _, _) ↦ absurd (contradiction (no_one m h'') waits)
          ]),
    )
  where
    follows-runs : (o : NextStep) → Follows k o → some o ≡ some (runs n k') → Follows k (runs n k')
    follows-runs o f e = let same : o ≡ runs n k' = cc e in subst (Follows k) same f

-- With the current environment in the last slot, `envs[1024]` is read, and if nobody is runnable,
-- there either, the loop never ends.
pub sched_yield-endless :
    (fuel : ℕ) (k : Kernel)
    → start_index k ≡ nenv
    → ((m : ℕ) → m ≤ nenv → runnable (k.envs m) ≡ false)
    → sched_yield fuel k ≡ none
unfolding sched_yield
sched_yield-endless fuel k h no_one =
    rw (h, search-endless runnable fuel k.envs nenv (omega arith) no_one) refl

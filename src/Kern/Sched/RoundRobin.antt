-- ===== src/Kern/Sched/RoundRobin.antt =====
-- What `sched_yield` does with the environment that the loop of the round robin policy finds.
use sisop_mendez.Base.{
  ==_iff, Bool, Bool-cases, Option, arith, false, inl, inr, none, refl, some, suc, true, zero, ℕ,
  ◌<◌, ◌==◌, ◌≡◌, ◌≢◌, ◌≤◌, ◌||◌, ◌⊎◌,
}
use sisop_mendez.Kern.Sched.{
  NextStep, any_live, count_yield, env_run, go_on, halts, may_go_on, monitors, release, runnable,
  runs, sched_halt, sched_yield, start_index, switch_to,
}
use sisop_mendez.Kern.Sched.Choice.{IsFirst, search-IsFirst}
use sisop_mendez.Kern.Types.{
  EnvStatus, Envs, Kernel, env_dying, env_free, env_not_runnable, env_runnable, env_running,
  is_dying, is_runnable, is_running, nenv, write_env,
}

-- What holds of the kernel when `sched_yield` lets environment `n` run.
pub record Running (this_cpu : ℕ) (envs : Envs) (n : ℕ) (k' : Kernel) : Type 0 where
  pub current : k'.curenv ≡ some n
  pub status : (k'.envs n).env_status ≡ env_running
  pub cpu : (k'.envs n).env_cpunum ≡ this_cpu
  pub waiting : (m : ℕ) → runnable (envs m) ≡ true → m ≢ n → k'.envs m ≡ envs m

-- The current environment of this CPU may not go on.
abbrev pub IsOver : Kernel → Option ℕ → Type 0
IsOver k none = Unit
IsOver k (some c) = may_go_on k c ≡ false

-- An environment for which the CPU waits in `sched_halt`.
abbrev pub IsLive : EnvStatus → Type 0
IsLive s = (s ≡ env_runnable) ⊎ (s ≡ env_running) ⊎ (s ≡ env_dying)

-- The next environment is the first runnable one; without any, the current one, if it is running
-- on this CPU; and otherwise the CPU rests.
abbrev pub Follows : Kernel → NextStep → Type 0
Follows k (runs n k') =
    Running k.cpunum k.envs n k'
    × (IsFirst runnable k.envs (start_index k) (some n)
        ⊎ (IsFirst runnable k.envs (start_index k) none
            × (k.curenv ≡ some n)
            × (may_go_on k n ≡ true)))
Follows k (halts k') =
    IsFirst runnable k.envs (start_index k) none
    × IsOver k k.curenv
    × ((i : ℕ) × (i < nenv) × IsLive (k.envs i).env_status)
    × (k'.curenv ≡ none)
    × (k'.halted ≡ true)
    × ((i : ℕ) → k'.envs i ≡ k.envs i)
Follows k (monitors k') =
    IsFirst runnable k.envs (start_index k) none
    × IsOver k k.curenv
    × ((i : ℕ) → i < nenv → ¬ IsLive (k.envs i).env_status)
    × ((i : ℕ) → k'.envs i ≡ k.envs i)

release-waiting :
    (k : Kernel) (o : Option ℕ) (m : ℕ)
    → runnable (k.envs m) ≡ true
    → (release k o).envs m ≡ k.envs m
unfolding release write_env
release-waiting k none m h = refl
release-waiting k (some c) m h = elim (Bool-cases (is_running (k.envs c).env_status)) [
  | inl running ↦ elim (Bool-cases (c == m)) [
    | inl same ↦ absurd (one_status (k.envs m).env_status h (cc ((==_iff c m).0 same, running)))
    | inr other ↦ rw (running, other) refl
  ]
  | inr stopped ↦ rw stopped refl
]
  where
    one_status : (s : EnvStatus) → is_runnable s ≡ true → is_running s ≡ true → ⊥
    one_status s h h' = ground arith

env_run-waiting :
    (k : Kernel) (n m : ℕ) → runnable (k.envs m) ≡ true → m ≢ n → (env_run n k).envs m ≡ k.envs m
unfolding env_run write_env
env_run-waiting k n m h other = ground (arith, release-waiting k k.curenv m h)

env_run-Running : (k : Kernel) (n : ℕ) → Running k.cpunum k.envs n (env_run n k)
unfolding env_run write_env
env_run-Running k n = record {
  current = refl;
  status = ground arith;
  cpu = ground arith;
  waiting = env_run-waiting k n;
}

before : (i n : ℕ) → i < suc n → (i == n) ≡ false → i < n
before i n l other = ground arith

any_live-false :
    (n : ℕ) (envs : Envs) → any_live n envs ≡ false → (i : ℕ) → i < n → ¬ IsLive (envs i).env_status
unfolding any_live
any_live-false zero envs h i l = absurd (omega arith)
any_live-false (suc n) envs h i l = elim (Bool-cases (i == n)) [
  | inl same ↦ rw ((==_iff i n).0 same) (at_rest (envs n).env_status (any_live n envs) h)
  | inr other ↦ any_live-false n envs (ground arith) i (before i n l other)
]
  where
    at_rest :
        (s : EnvStatus) (rest : Bool)
        → (is_runnable s || is_running s || is_dying s || rest) ≡ false
        → ¬ IsLive s
    at_rest env_free rest h l = ground arith
    at_rest env_dying rest h l = absurd (cc h)
    at_rest env_runnable rest h l = absurd (cc h)
    at_rest env_running rest h l = absurd (cc h)
    at_rest env_not_runnable rest h l = ground arith

any_live-true :
    (n : ℕ) (envs : Envs) → any_live n envs ≡ true → (i : ℕ) × (i < n) × IsLive (envs i).env_status
unfolding any_live
any_live-true zero envs h = absurd (cc h)
any_live-true (suc n) envs h = elim (status-cases (envs n).env_status) [
  | inl live ↦ (n, omega arith, live)
  | inr rest ↦
      let (i, l, live) = any_live-true n envs (ground (arith, rest (any_live n envs))) in
      (i, omega arith, live)
]
  where
    status-cases :
        (s : EnvStatus)
        → IsLive s ⊎ ((rest : Bool) → (is_runnable s || is_running s || is_dying s || rest) ≡ rest)
    status-cases env_free = inr (λ rest. refl)
    status-cases env_dying = inl (inr (inr refl))
    status-cases env_runnable = inl (inl refl)
    status-cases env_running = inl (inr (inl refl))
    status-cases env_not_runnable = inr (λ rest. refl)

sched_halt-Follows :
    (k : Kernel)
    → IsFirst runnable k.envs (start_index k) none
    → IsOver k k.curenv
    → Follows k (sched_halt k)
unfolding sched_halt
sched_halt-Follows k no_one over = elim (Bool-cases (any_live nenv k.envs)) [
  | inl live ↦ rw live (no_one, over, any_live-true nenv k.envs live, refl, refl, λ i. refl)
  | inr dead ↦ rw dead (no_one, over, any_live-false nenv k.envs dead, λ i. refl)
]

go_on-Follows :
    (k : Kernel) (o : Option ℕ)
    → k.curenv ≡ o
    → IsFirst runnable k.envs (start_index k) none
    → Follows k (go_on (count_yield k) o)
unfolding go_on
go_on-Follows k none e first = sched_halt-Follows (count_yield k) first (rw e tt)
go_on-Follows k (some c) e first = elim (Bool-cases (may_go_on k c)) [
  | inl on ↦ rw on (env_run-Running (count_yield k) c, inr (first, e, on))
  | inr over ↦ rw over (sched_halt-Follows (count_yield k) first (rw e over))
]

switch_to-Follows :
    (k : Kernel) (next : Option ℕ)
    → IsFirst runnable k.envs (start_index k) next
    → Follows k (switch_to (count_yield k) next)
unfolding switch_to
switch_to-Follows k (some n) first = (env_run-Running _ n, inl first)
switch_to-Follows k none first = go_on-Follows k k.curenv refl first

-- Started at an index inside `envs`, round robin `sched_yield` leaves its loop within 1024
-- rounds: the first runnable environment in circular order runs; without any, the current one,
-- if it is running on this CPU; and otherwise, with no environment changed, the CPU halts if an
-- environment is runnable, running or dying, and enters the monitor if none is.
pub sched_yield-Follows :
    (fuel : ℕ) (k : Kernel)
    → start_index k < nenv
    → nenv ≤ fuel
    → (o : NextStep) × (sched_yield fuel k ≡ some o) × Follows k o
unfolding sched_yield
sched_yield-Follows fuel k h enough =
    let (r, eq, first) = search-IsFirst runnable fuel k.envs (start_index k) h enough in
    (switch_to (count_yield k) r, rw eq refl, switch_to-Follows k r first)

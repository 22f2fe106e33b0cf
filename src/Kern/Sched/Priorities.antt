-- ===== src/Kern/Sched/Priorities.antt =====
-- The priorities policy, set against round robin. The loop ends with the first environment that is
-- runnable and below 256, so that the order of the priorities plays no part.
use sisop_mendez.Base.{
  Bool, Bool-cases, Option, ap, arith, inl, inr, none, refl, some, suc, sym, true, zero, ℕ, ◌%◌,
  ◌&&◌, ◌+◌, ◌<◌, ◌==◌, ◌∙◌, ◌≡◌, ◌≤◌,
}
use sisop_mendez.Kern.Sched.{
  NextStep, age, aged, boost, boosted, count_yield, env_run, go_on, halts, index_after,
  is_candidate, magnitude, may_go_on, min_priority, monitors, release, runnable, runs, sched_halt,
  sched_yield, sched_yield_priorities, search, start_index, switch_to,
}
use sisop_mendez.Kern.Sched.Choice.{search-IsFirst}
use sisop_mendez.Kern.Types.{Env, Envs, Kernel, envx, is_runnable, nenv, slt, write_env}

-- No environment has a priority above 255. What the scheduler does itself stays within this.
abbrev pub AllLow : Envs → Type 0
AllLow envs = (i : ℕ) → (envs i).env_priority < min_priority

low-candidate : (e : Env) → e.env_priority < min_priority → is_candidate e ≡ runnable e
low-candidate e h =
    let low : slt e.env_priority min_priority ≡ true = ground arith in
    rw low (and_true (is_runnable e.env_status))
  where
    and_true : (b : Bool) → (b && true) ≡ b
    and_true b = ground arith

search_cong :
    (test test' : Env → Bool) (fuel : ℕ) (envs envs' : Envs) (start i : ℕ)
    → ((j : ℕ) → test (envs j) ≡ test' (envs' j))
    → search test fuel envs start i ≡ search test' fuel envs' start i
unfolding search
search_cong test test' zero envs envs' start i same = refl
search_cong test test' (suc fuel) envs envs' start i same =
    rw (same i, search_cong test test' fuel envs envs' start ((i + 1) % nenv) same) refl

-- Which environment runs next, if any, and what the kernel is then.
abbrev pub next_of : NextStep → Option ℕ
next_of (runs n k) = some n
next_of (halts k) = none
next_of (monitors k) = none

abbrev pub kernel_of : NextStep → Kernel
kernel_of (runs n k) = k
kernel_of (halts k) = k
kernel_of (monitors k) = k

-- The boost changes priorities only.
record Boosted (k k' : Kernel) : Type 0 where
  curenv : k'.curenv ≡ k.curenv
  cpunum : k'.cpunum ≡ k.cpunum
  status : (i : ℕ) → (k'.envs i).env_status ≡ (k.envs i).env_status
  id : (i : ℕ) → (k'.envs i).env_id ≡ (k.envs i).env_id
  cpu : (i : ℕ) → (k'.envs i).env_cpunum ≡ (k.envs i).env_cpunum
  low : AllLow k.envs → AllLow k'.envs

boosted-Boosted : (k : Kernel) → Boosted k (boosted k)
unfolding boosted boost
boosted-Boosted k = elim (Bool-cases (magnitude k.stats.number_of_switches % 10 == 0)) [
  | inl tenth ↦ rw tenth (record {
    curenv = refl;
    cpunum = refl;
    status = λ i. ground arith;
    id = λ i. ground arith;
    cpu = λ i. ground arith;
    low = λ l i. ground (arith, l i);
  })
  | inr other ↦ rw other (record {
    curenv = refl;
    cpunum = refl;
    status = λ i. refl;
    id = λ i. refl;
    cpu = λ i. refl;
    low = λ l. l;
  })
]

age-low : (k : Kernel) (o : Option ℕ) → AllLow k.envs → AllLow (age k o).envs
unfolding age write_env
age-low k none low i = low i
age-low k (some c) low i = ground (arith, low i, low c)

aged-low : (k : Kernel) (next : Option ℕ) → AllLow k.envs → AllLow (aged k next).envs
unfolding aged
aged-low k none low = low
aged-low k (some n) low = age-low k k.curenv low

release-low : (k : Kernel) (o : Option ℕ) → AllLow k.envs → AllLow (release k o).envs
unfolding release write_env
release-low k none low i = low i
release-low k (some c) low i = ground (arith, low i, low c)

env_run-low : (k : Kernel) (n : ℕ) → AllLow k.envs → AllLow (env_run n k).envs
unfolding env_run write_env
env_run-low k n low i = ground (arith, release-low k k.curenv low i, release-low k k.curenv low n)

go_on-low : (k : Kernel) (o : Option ℕ) → AllLow k.envs → AllLow (kernel_of (go_on k o)).envs
unfolding go_on sched_halt
go_on-low k none low i = ground (arith, low i)
go_on-low k (some c) low i = ground (arith, low i, env_run-low k c low i)

switch_to-low :
    (k : Kernel) (next : Option ℕ) → AllLow k.envs → AllLow (kernel_of (switch_to k next)).envs
unfolding switch_to
switch_to-low k (some n) low = env_run-low _ n low
switch_to-low k none low = go_on-low k k.curenv low

next_of-halt : (k : Kernel) → next_of (sched_halt k) ≡ none
unfolding sched_halt
next_of-halt k = ground arith

-- Two kernels that agree on the current environment and its state go on alike.
go_on-next :
    (k k' : Kernel) (o : Option ℕ) → Boosted k k' → next_of (go_on k o) ≡ next_of (go_on k' o)
unfolding go_on
go_on-next k k' none b = rw (next_of-halt k, next_of-halt k') refl
go_on-next k k' (some c) b = elim (Bool-cases (may_go_on k c)) [
  | inl on ↦ rw (on, same ∙ on) refl
  | inr over ↦ rw (over, same ∙ over, next_of-halt k, next_of-halt k') refl
]
  where
    same : may_go_on k' c ≡ may_go_on k c
    same = rw (b.status c, b.cpu c, b.cpunum) refl

switch_to-next :
    (k k' : Kernel) (next : Option ℕ)
    → Boosted k k'
    → next_of (switch_to k next) ≡ next_of (switch_to (aged k' next) next)
unfolding switch_to aged
switch_to-next k k' (some n) b = refl
switch_to-next k k' none b =
    go_on-next k k' k.curenv b ∙ ap (λ o. next_of (go_on k' o)) (sym b.curenv)

index_after-Boosted :
    (k k' : Kernel) (o : Option ℕ) → Boosted k k' → index_after k'.envs o ≡ index_after k.envs o
index_after-Boosted k k' none b = refl
index_after-Boosted k k' (some c) b = ap (λ id. envx id + 1) (b.id c)

start_index-Boosted : (k k' : Kernel) → Boosted k k' → start_index k' ≡ start_index k
start_index-Boosted k k' b = ap (index_after k'.envs) b.curenv ∙ index_after-Boosted k k' k.curenv b

search-Boosted :
    (fuel : ℕ) (k k' : Kernel)
    → Boosted k k'
    → AllLow k.envs
    → search is_candidate fuel k'.envs (start_index k') (start_index k')
      ≡ search runnable fuel k.envs (start_index k) (start_index k)
search-Boosted fuel k k' b low = rw (start_index-Boosted k k' b) (
    search_cong is_candidate runnable fuel k'.envs k.envs (start_index k) (start_index k)
      (λ j. low-candidate (k'.envs j) (b.low low j) ∙ ap is_runnable (b.status j)))

-- While no priority is above 255, and from an index inside `envs` with 1024 rounds or more,
-- `sched_yield` under the priorities policy ends, lets the environment run that round robin
-- would, if any, and leaves no priority above 255.
pub sched_yield-priorities :
    (fuel : ℕ) (k : Kernel)
    → start_index k < nenv
    → nenv ≤ fuel
    → AllLow k.envs
    → (o o' : NextStep) × (sched_yield fuel k ≡ some o)
      × (sched_yield_priorities fuel k ≡ some o')
      × (next_of o' ≡ next_of o)
      × AllLow (kernel_of o').envs
unfolding sched_yield sched_yield_priorities
sched_yield-priorities fuel k h enough low =
    let k' = boosted (count_yield k) in
    let b = boosted-Boosted (count_yield k) in
    let (r, eq, first) = search-IsFirst runnable fuel k.envs (start_index k) h enough in
    let eq' = search-Boosted fuel (count_yield k) k' b low ∙ eq in
    (
      switch_to (count_yield k) r,
      switch_to (aged k' r) r,
      rw eq refl,
      rw eq' refl,
      sym (switch_to-next (count_yield k) k' r b),
      switch_to-low (aged k' r) r (aged-low k' r (b.low low)),
    )

-- ===== src/Kern/Sched.antt =====
-- kern/sched.c and `env_run` of kern/env.c. Both policies are modelled: round robin, which the
-- build takes by default, and priorities. The search takes fuel; `none` means that it still runs.
pub mod Choice
pub mod RoundRobin
pub mod Waiting
pub mod Priorities
use mathlib.Core.Option
use sisop_mendez.Base.{
  Bool, Option, false, if◌then◌else◌, ltb, none, some, suc, true, zero, ℕ, ◌%◌, ◌&&◌, ◌+◌, ◌-◌,
  ◌==◌, ◌||◌,
}
use sisop_mendez.Kern.Types.{
  Env, Envs, Kernel, env_runnable, env_running, envx, is_dying, is_runnable, is_running, nenv,
  put_env, slt, word, write_env,
}

-- `int i = curenv ? ENVX(curenv->env_id) + 1 : 0`
abbrev pub index_after : Envs → Option ℕ → ℕ
index_after envs none = 0
index_after envs (some c) = envx (envs c).env_id + 1

abbrev pub start_index : Kernel → ℕ
start_index k = index_after k.envs k.curenv

-- The loop at index `i`, with the test of its body; `next` is NULL whenever the body is entered.
unfoldable pub search : (Env → Bool) → ℕ → Envs → ℕ → ℕ → Option (Option ℕ)
search test zero envs start i = none
search test (suc fuel) envs start i =
    let rest = search test fuel envs start ((i + 1) % nenv) in
    if test (envs i) then some (some i) else if ((i + 1) % nenv) == start then some none else rest

-- The test of the round robin policy.
abbrev pub runnable : Env → Bool
runnable e = is_runnable e.env_status

abbrev pub min_priority : ℕ
min_priority = 0x100

-- `envs[i].env_status == ENV_RUNNABLE && envs[i].env_priority < min_priority`, the test of the
-- priorities policy. The loop leaves with the first one, so `min_priority` has its first value.
abbrev pub is_candidate : Env → Bool
is_candidate e = is_runnable e.env_status && slt e.env_priority min_priority

-- The boost of every tenth switch sets the priority of each runnable environment to 0.
unfoldable pub boost : Envs → Envs
boost envs i =
    if ltb i nenv && is_runnable (envs i).env_status
    then record (envs i) { env_priority = 0 }
    else envs i

-- The absolute value of an `int`.
abbrev pub magnitude : ℕ → ℕ
magnitude a = if slt a 0 then word - a else a

unfoldable pub boosted : Kernel → Kernel
boosted k =
    if magnitude k.stats.number_of_switches % 10 == 0
    then record k {
      envs = boost k.envs;
      stats = record (k.stats) { number_of_boosts = (k.stats.number_of_boosts + 1) % word };
    }
    else k

-- `curenv->env_priority++`, if it is below 255 and there are a current and a next environment.
unfoldable pub age : Kernel → Option ℕ → Kernel
age k none = k
age k (some c) =
    if slt (k.envs c).env_priority (min_priority - 1)
    then put_env k c (record (k.envs c) { env_priority = ((k.envs c).env_priority + 1) % word })
    else k

unfoldable pub aged : Kernel → Option ℕ → Kernel
aged k none = k
aged k (some n) = age k k.curenv

-- What the CPU does at the end of `sched_yield`.
pub data NextStep : Type 0 where
  runs : ℕ → Kernel → NextStep
  halts : Kernel → NextStep
  monitors : Kernel → NextStep

-- The first lines of `env_run`: a current environment that is running becomes runnable.
unfoldable pub release : Kernel → Option ℕ → Kernel
release k none = k
release k (some c) =
    if is_running (k.envs c).env_status
    then put_env k c (record (k.envs c) { env_status = env_runnable })
    else k

abbrev pub preempt : Kernel → Kernel
preempt k = release k k.curenv

-- `env_run(e)` up to the switch into user mode.
unfoldable pub env_run : ℕ → Kernel → Kernel
env_run e k =
    let k' = preempt k in
    let old = k'.envs e in
    record k' {
      curenv = some e;
      envs = write_env k'.envs e (record old {
        env_runs = (old.env_runs + 1) % word;
        env_status = env_running;
        env_cpunum = k.cpunum;
      });
    }

-- Whether `sched_halt` finds an environment among the first `n` that is not at rest.
unfoldable pub any_live : ℕ → Envs → Bool
any_live zero envs = false
any_live (suc n) envs =
    is_runnable (envs n).env_status
    || is_running (envs n).env_status
    || is_dying (envs n).env_status
    || any_live n envs

unfoldable pub sched_halt : Kernel → NextStep
sched_halt k =
    if any_live nenv k.envs then halts (record k { curenv = none; halted = true }) else monitors k

-- Whether the current environment may go on: it is running, on this CPU.
abbrev pub may_go_on : Kernel → ℕ → Bool
may_go_on k c = is_running (k.envs c).env_status && (k.envs c).env_cpunum == k.cpunum

-- Without a next environment, the current one goes on, if there is one and it may.
unfoldable pub go_on : Kernel → Option ℕ → NextStep
go_on k none = sched_halt k
go_on k (some c) = if may_go_on k c then runs c (env_run c k) else sched_halt k

unfoldable pub switch_to : Kernel → Option ℕ → NextStep
switch_to k (some n) = runs n (
    env_run n (record k {
      stats = record (k.stats) { number_of_switches = (k.stats.number_of_switches + 1) % word };
    }))
switch_to k none = go_on k k.curenv

abbrev pub count_yield : Kernel → Kernel
count_yield k = record k {
  stats = record (k.stats) { number_of_yields = (k.stats.number_of_yields + 1) % word };
}

-- `sched_yield` with SCHED_ROUND_ROBIN.
unfoldable pub sched_yield : ℕ → Kernel → Option NextStep
sched_yield fuel k =
    Option.map (switch_to (count_yield k))
      (search runnable fuel k.envs (start_index k) (start_index k))

-- `sched_yield` with SCHED_PRIORITIES.
unfoldable pub sched_yield_priorities : ℕ → Kernel → Option NextStep
sched_yield_priorities fuel k =
    let k' = boosted (count_yield k) in
    Option.map (λ next. switch_to (aged k' next) next)
      (search is_candidate fuel k'.envs (start_index k') (start_index k'))

-- ===== src/Tests/Kern.antt =====
-- The scheduler and the table of environments on small kernels.
use sisop_mendez.Base.{
  Option, [], arith, false, if◌then◌else◌, inr, ltb, none, refl, some, true, ℕ, ◌+◌, ◌<◌, ◌≡◌,
}
use sisop_mendez.Kern.Envs.{env_alloc, env_init, user_trapframe}
use sisop_mendez.Kern.Envs.Alloc.{Ends, env_alloc-Ends}
use sisop_mendez.Kern.Envs.FreeList.{IsFreeList}
use sisop_mendez.Kern.Envs.Init.{env_init-IsFreeList, range}
use sisop_mendez.Kern.Pages.{Pages}
use sisop_mendez.Kern.Sched.{
  NextStep, count_yield, env_run, release, runnable, runs, sched_yield, sched_yield_priorities,
  search, start_index, switch_to,
}
use sisop_mendez.Kern.Sched.Choice.{distance}
use sisop_mendez.Kern.Sched.Priorities.{AllLow, kernel_of, next_of, sched_yield-priorities}
use sisop_mendez.Kern.Sched.RoundRobin.{Follows, sched_yield-Follows}
use sisop_mendez.Kern.Sched.Waiting.{sched_yield-closer, sched_yield-endless}
use sisop_mendez.Kern.Types.{
  Env, EnvStatus, Envs, Kernel, env_free, env_not_runnable, env_runnable, env_running, nenv,
  write_env,
}

abbrev pub user : EnvStatus → ℕ → Env
user status id = record {
  env_tf = user_trapframe;
  env_link = none;
  env_id = id;
  env_parent_id = 0;
  env_status = status;
  env_runs = 0;
  env_cpunum = 0;
  env_priority = 3;
  env_pgdir = none;
  env_pgfault_upcall = 0;
  env_ipc_recving = false;
  env_ipc_dstva = 0;
  env_ipc_value = 0;
  env_ipc_from = 0;
  env_ipc_perm = 0;
}

abbrev pub kernel_with : Envs → Option ℕ → Kernel
kernel_with envs curenv = record {
  envs = envs;
  env_free_list = none;
  curenv = curenv;
  cpunum = 0;
  halted = false;
  stats = record { number_of_yields = 0; number_of_switches = 0; number_of_boosts = 0 };
}

-- Two environments wait.
abbrev two : Kernel
two = kernel_with (λ i. user (if ltb i 2 then env_runnable else env_free) (4096 + i)) none

sched_yield-Follows_example : (o : NextStep) × (sched_yield 1024 two ≡ some o) × Follows two o
sched_yield-Follows_example = sched_yield-Follows 1024 two (omega arith) (omega arith)

abbrev first_runs : Kernel
first_runs = env_run 0 (record (count_yield two) {
  stats = record { number_of_yields = 1; number_of_switches = 1; number_of_boosts = 0 };
})

first-runs : sched_yield 1024 two ≡ some (runs 0 first_runs)
unfolding sched_yield switch_to search
first-runs = refl

sched_yield-closer_example :
    (runnable (first_runs.envs 1) ≡ true)
    × (distance (start_index first_runs) 1 < distance (start_index two) 1)
unfolding env_run release write_env
sched_yield-closer_example =
    sched_yield-closer 1024 two first_runs 0 1 (omega arith) (omega arith) first-runs refl
      (omega arith) (omega arith) refl (omega arith)

-- The environment in the last slot has stopped, and nobody is runnable.
abbrev last_stopped : Kernel
last_stopped = kernel_with (λ i. user env_not_runnable (4096 + i)) (some 1023)

sched_yield-endless_example : sched_yield 5000 last_stopped ≡ none
sched_yield-endless_example = sched_yield-endless 5000 last_stopped refl (λ m h. refl)

sched_yield-priorities_example :
    (o o' : NextStep) × (sched_yield 1024 two ≡ some o)
    × (sched_yield_priorities 1024 two ≡ some o')
    × (next_of o' ≡ next_of o)
    × AllLow (kernel_of o').envs
sched_yield-priorities_example =
    sched_yield-priorities 1024 two (omega arith) (omega arith) (λ i. omega arith)

abbrev pub pages : Pages
pages = record {
  page_free_list = some 7;
  pp_link = λ i. none;
  pp_ref = λ i. 0;
  npages = 16;
  frames = λ pp i. 0;
  kern_pgdir = 1;
}

env_alloc-Ends_example :
    Ends 4099
      (env_init last_stopped)
      pages
      (range 0 nenv)
      (env_alloc 4099 (env_init last_stopped) pages)
env_alloc-Ends_example =
    env_alloc-Ends 4099 (env_init last_stopped) pages (range 0 nenv)
      (env_init-IsFreeList last_stopped)

-- All slots are in use for the first time.
abbrev pub all_used : Kernel
all_used = kernel_with (λ i. user env_running (4096 + i)) (some 3)

all_used-IsFreeList : IsFreeList all_used []
all_used-IsFreeList = record {
  chain = tt;
  slots = tt;
  ids = λ i h. inr (record { slot = omega arith; low = omega arith; high = omega arith });
}

-- ===== src/Tests/Calls.antt =====
-- Calls of the kernel on small kernels.
use sisop_mendez.Base.{
  [], arith, if◌then◌else◌, inr, refl, some, true, ℕ, ◌+◌, ◌<◌, ◌==◌, ◌∷◌, ◌≡◌, ◌≢◌, ◌⊎◌,
}
use sisop_mendez.Kern.Calls.{refused, sys_env_set_status, sys_exofork}
use sisop_mendez.Kern.Calls.Permissions.{
  ForkEnds, sys_env_set_status-stranger, sys_exofork-ForkEnds,
}
use sisop_mendez.Kern.Envs.{e_bad_env, e_inval}
use sisop_mendez.Kern.Envs.FreeList.{IsFreeList}
use sisop_mendez.Kern.PageCalls.{sys_ipc_recv, yields}
use sisop_mendez.Kern.PageCalls.Messages.{Exchanged, IsNamed, sys_ipc_recv-send}
use sisop_mendez.Kern.Types.{Kernel, env_free, env_not_runnable, env_running}
use sisop_mendez.Tests.Kern.{all_used, kernel_with, pages, user}
use sisop_mendez.Tests.Paging.{blank_space}

sys_env_set_status-stranger_example :
    (sys_env_set_status all_used 4101 2 ≡ refused e_inval)
    ⊎ (sys_env_set_status all_used 4101 2 ≡ refused e_bad_env)
sys_env_set_status-stranger_example =
    sys_env_set_status-stranger all_used 3 4101 2 refl (omega arith)
      (record { other = omega arith; no_child = omega arith })

-- The environment in slot 3 runs, and slot 0 is free.
abbrev three_runs : Kernel
three_runs =
    record (kernel_with (λ i. user (if i == 0 then env_free else env_running) (4096 + i))
      (some 3)) { env_free_list = some 0 }

three_runs-IsFreeList : IsFreeList three_runs (0 ∷ [])
three_runs-IsFreeList = record {
  chain = (refl, tt, tt);
  slots = ((omega arith, refl), tt);
  ids = λ i h. inr (record { slot = omega arith; low = omega arith; high = omega arith });
}

sys_exofork-ForkEnds_example : ForkEnds 3 three_runs pages (sys_exofork 3 three_runs pages)
sys_exofork-ForkEnds_example =
    sys_exofork-ForkEnds 3 three_runs pages (0 ∷ []) three_runs-IsFreeList refl

-- Every environment runs, over the page directory in page 1; the one in slot 2 receives.
abbrev one_receives : Kernel
one_receives =
    kernel_with
      (λ i. record (user env_running (4096 + i)) { env_pgdir = some 1; env_ipc_recving = i == 2 })
      (some 3)

one_receives-IsNamed : (d : ℕ) → d < 1024 → IsNamed one_receives d
one_receives-IsNamed d h = record { used = refl; slot = omega arith; nonzero = omega arith }

sys_ipc_recv-send_example :
    (k1 : Kernel) × (sys_ipc_recv 5 one_receives 4096 ≡ yields k1)
    × ((k1.envs 5).env_status ≡ env_not_runnable)
    × ((k1.envs 5).env_ipc_recving ≡ true)
    × ((k1.envs 5).env_ipc_dstva ≡ 4096)
    × ((e : ℕ) → e ≢ 5 → k1.envs e ≡ one_receives.envs e)
    × Exchanged k1 blank_space 3 5 7 0xeec00000 0 4101
sys_ipc_recv-send_example =
    sys_ipc_recv-send 3 5 one_receives blank_space 4096 7 0xeec00000 0
      (one_receives-IsNamed 5 (omega arith)) refl (omega arith)

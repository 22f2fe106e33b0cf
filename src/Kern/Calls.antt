-- ===== src/Kern/Calls.antt =====
-- Calls of kern/syscall.c on environments. `c` is the slot of `curenv`.
pub mod Permissions
use sisop_mendez.Base.{
  Bool, Option, false, if◌then◌else◌, inl, inr, none, some, true, ℕ, ◌&&◌, ◌==◌, ◌||◌, ◌⊎◌,
}
use sisop_mendez.Kern.Envs.{
  Error, Lookup, e_bad_env, e_inval, env_alloc, envid2env, failed, null_curenv, stored,
}
use sisop_mendez.Kern.Pages.{Pages}
use sisop_mendez.Kern.Types.{
  Env, EnvStatus, Kernel, Trapframe, answer_zero, env_not_runnable, env_runnable, put_env, slt,
}

-- What a call gives: a value, an error, or the dereference of a NULL pointer.
pub data Answer : Type 0 where
  answered : ℕ → Kernel → Answer
  refused : Error → Answer
  crashed : Answer

abbrev pub sys_getenvid : ℕ → Kernel → Answer
sys_getenvid c k = answered (k.envs c).env_id k

-- `newenv` of `sys_exofork`, with the registers of the current environment.
unfoldable pub child_of : Trapframe → Env → Env
child_of tf e = record e { env_status = env_not_runnable; env_tf = answer_zero tf }

unfoldable pub forked : ℕ → Error ⊎ (ℕ × Kernel × Pages) → Error ⊎ (ℕ × Kernel × Pages)
forked c (inl r) = inl r
forked c (inr (e, k, p)) = inr (e, put_env k e (child_of (k.envs c).env_tf (k.envs e)), p)

-- `sys_exofork`; the slot of the new environment stands for its id.
abbrev pub sys_exofork : ℕ → Kernel → Pages → Error ⊎ (ℕ × Kernel × Pages)
sys_exofork c k p = forked c (env_alloc (k.envs c).env_id k p)

-- The statuses that `sys_env_set_status` takes, from their numbers.
abbrev pub settable : ℕ → Option EnvStatus
settable status =
    if status == 2 then some env_runnable else if status == 4 then some env_not_runnable else none

unfoldable pub set_status : Kernel → EnvStatus → Lookup → Answer
set_status k status (stored (some e)) =
    answered 0 (put_env k e (record (k.envs e) { env_status = status }))
set_status k status (stored none) = crashed
set_status k status failed = refused e_bad_env
set_status k status null_curenv = crashed

unfoldable pub set_settable : Kernel → ℕ → Option EnvStatus → Answer
set_settable k envid none = refused e_inval
set_settable k envid (some status) = set_status k status (envid2env k envid true)

abbrev pub sys_env_set_status : Kernel → ℕ → ℕ → Answer
sys_env_set_status k envid status = set_settable k envid (settable status)

-- `envid == 0 || envid == curenv->env_id`
abbrev pub is_own : ℕ → Kernel → ℕ → Bool
is_own c k envid = envid == 0 || envid == (k.envs c).env_id

unfoldable pub get_priority : Kernel → Lookup → Answer
get_priority k (stored (some e)) = answered (k.envs e).env_priority k
get_priority k (stored none) = crashed
get_priority k failed = refused e_bad_env
get_priority k null_curenv = crashed

unfoldable pub sys_env_get_priority : ℕ → Kernel → ℕ → Answer
sys_env_get_priority c k envid =
    if is_own c k envid
    then answered (k.envs c).env_priority k
    else get_priority k (envid2env k envid false)

unfoldable pub set_priority : Kernel → ℕ → Lookup → Answer
set_priority k priority (stored (some e)) =
    answered 0 (put_env k e (record (k.envs e) { env_priority = priority }))
set_priority k priority (stored none) = crashed
set_priority k priority failed = refused e_bad_env
set_priority k priority null_curenv = crashed

unfoldable pub sys_env_set_priority : ℕ → Kernel → ℕ → ℕ → Answer
sys_env_set_priority c k envid priority =
    if is_own c k envid && slt priority (k.envs c).env_priority
    then refused e_inval
    else set_priority k priority (envid2env k envid false)

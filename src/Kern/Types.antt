-- ===== src/Kern/Types.antt =====
-- inc/env.h, kern/sched_stats.h and the part of the kernel's memory that env.c and sched.c use. The
-- array `envs` is the memory that starts there: an index past its end reads what lies behind it.
-- A pointer into it is an index, and `none` is NULL. 32-bit fields are their bit patterns.
use sisop_mendez.Base.{Bool, Option, false, if◌then◌else◌, ltb, true, ℕ, ◌%◌, ◌+◌, ◌==◌, ◌^◌}

abbrev pub nenv : ℕ
nenv = 1024

-- `ENVX(envid)`
abbrev pub envx : ℕ → ℕ
envx envid = envid % nenv

abbrev pub word : ℕ
word = 2 ^ 32

-- `a < b` on `int`
abbrev pub slt : ℕ → ℕ → Bool
slt a b = ltb ((a + 2 ^ 31) % word) ((b + 2 ^ 31) % word)

pub data EnvStatus : Type 0 where
  env_free env_dying env_runnable env_running env_not_runnable : EnvStatus

pub record PushRegs : Type 0 where
  pub reg_edi : ℕ
  pub reg_esi : ℕ
  pub reg_ebp : ℕ
  pub reg_oesp : ℕ
  pub reg_ebx : ℕ
  pub reg_edx : ℕ
  pub reg_ecx : ℕ
  pub reg_eax : ℕ

-- Without the words of padding.
pub record Trapframe : Type 0 where
  pub tf_regs : PushRegs
  pub tf_es : ℕ
  pub tf_ds : ℕ
  pub tf_trapno : ℕ
  pub tf_err : ℕ
  pub tf_eip : ℕ
  pub tf_cs : ℕ
  pub tf_eflags : ℕ
  pub tf_esp : ℕ
  pub tf_ss : ℕ

-- `tf->tf_regs.reg_eax = 0`, the answer 0 of a system call.
abbrev pub answer_zero : Trapframe → Trapframe
answer_zero tf = record tf { tf_regs = record (tf.tf_regs) { reg_eax = 0 } }

pub record Env : Type 0 where
  pub env_tf : Trapframe
  pub env_link : Option ℕ
  pub env_id : ℕ
  pub env_parent_id : ℕ
  pub env_status : EnvStatus
  pub env_runs : ℕ
  pub env_cpunum : ℕ
  pub env_priority : ℕ
  pub env_pgdir : Option ℕ
  pub env_pgfault_upcall : ℕ
  pub env_ipc_recving : Bool
  pub env_ipc_dstva : ℕ
  pub env_ipc_value : ℕ
  pub env_ipc_from : ℕ
  pub env_ipc_perm : ℕ

abbrev pub Envs : Type 0
Envs = ℕ → Env

abbrev pub is_free : EnvStatus → Bool
is_free env_free = true
is_free _ = false

abbrev pub is_runnable : EnvStatus → Bool
is_runnable env_runnable = true
is_runnable _ = false

abbrev pub is_running : EnvStatus → Bool
is_running env_running = true
is_running _ = false

abbrev pub is_dying : EnvStatus → Bool
is_dying env_dying = true
is_dying _ = false

pub record SchedStats : Type 0 where
  pub number_of_yields : ℕ
  pub number_of_switches : ℕ
  pub number_of_boosts : ℕ

-- `curenv` and `cpunum()` are those of the CPU that runs the code.
pub record Kernel : Type 0 where
  pub envs : Envs
  pub env_free_list : Option ℕ
  pub curenv : Option ℕ
  pub cpunum : ℕ
  pub halted : Bool
  pub stats : SchedStats

unfoldable pub write_env : Envs → ℕ → Env → Envs
write_env envs i e j = if i == j then e else envs j

-- A write of a field through a pointer to `envs[i]`.
abbrev pub put_env : Kernel → ℕ → Env → Kernel
put_env k i e = record k { envs = write_env k.envs i e }

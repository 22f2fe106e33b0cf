-- ===== src/Kern/Envs.antt =====
-- The table of environments: kern/env.c from `envid2env` to `env_alloc`, and the end of `env_free`.
pub mod Ids
pub mod FreeList
pub mod Alloc
pub mod Init
use sisop_mendez.Base.{
  Bool, Option, false, if◌then◌else◌, inl, inr, leb, none, not, some, suc, true, zero, ℕ, ◌%◌, ◌&&◌,
  ◌*◌, ◌+◌, ◌/◌, ◌==◌, ◌^◌, ◌||◌, ◌⊎◌,
}
use sisop_mendez.Kern.Pages.{Pages, copy_frame, page_alloc, pdx, update, uvpt, write_word}
use sisop_mendez.Kern.Types.{
  Env, Envs, Kernel, PushRegs, Trapframe, env_free, env_runnable, envx, is_free, nenv, put_env,
  word, write_env,
}

pub data Error : Type 0 where
  e_unspecified e_bad_env e_inval e_no_mem e_no_free_env e_fault e_ipc_not_recv e_eof : Error

-- `env_setup_vm`: the page that becomes the page directory, its reference counted. It starts as a
-- copy of the kernel's, and maps itself for the user to read.
unfoldable pub take_directory : Option (ℕ × Pages) → Error ⊎ (ℕ × Pages)
take_directory none = inl e_no_mem
take_directory (some (pp, p)) = inr (
  pp,
  record p {
    pp_ref = update p.pp_ref pp ((p.pp_ref pp + 1) % 2 ^ 16);
    frames = write_word (copy_frame p.frames pp p.kern_pgdir) pp (pdx uvpt) (pp * 4096 + 5);
  },
)

abbrev pub env_setup_vm : Pages → Error ⊎ (ℕ × Pages)
env_setup_vm p = take_directory (page_alloc true p)

-- The id that `env_alloc` gives to slot `e` after `env_id`.
abbrev pub generation : ℕ → ℕ
generation env_id =
    let g = ((env_id + 4096) % word) / nenv * nenv in if g == 0 || leb (2 ^ 31) g then 4096 else g

abbrev pub next_id : ℕ → ℕ → ℕ
next_id env_id e = generation env_id + e

-- The registers behind `memset`.
abbrev pub zero_regs : PushRegs
zero_regs = record {
  reg_edi = 0;
  reg_esi = 0;
  reg_ebp = 0;
  reg_oesp = 0;
  reg_ebx = 0;
  reg_edx = 0;
  reg_ecx = 0;
  reg_eax = 0;
}

abbrev pub user_trapframe : Trapframe
user_trapframe = record {
  tf_regs = zero_regs;
  tf_es = 0x23;
  tf_ds = 0x23;
  tf_trapno = 0;
  tf_err = 0;
  tf_eip = 0;
  tf_cs = 0x1b;
  tf_eflags = 0x200;
  tf_esp = 0xeebfe000;
  tf_ss = 0x23;
}

-- The environment that `env_alloc` leaves in slot `e`.
unfoldable pub fresh_env : ℕ → ℕ → ℕ → Env → Env
fresh_env e parent_id pgdir old = record old {
  env_pgdir = some pgdir;
  env_id = next_id old.env_id e;
  env_parent_id = parent_id;
  env_status = env_runnable;
  env_runs = 0;
  env_priority = 0;
  env_tf = user_trapframe;
  env_pgfault_upcall = 0;
  env_ipc_recving = false;
}

-- `env_alloc` with the free slot `e`, once its page directory is there.
unfoldable pub commit : ℕ → ℕ → Kernel → ℕ → Kernel
commit parent_id pgdir k e = record (put_env k e (fresh_env e parent_id pgdir (k.envs e))) {
  env_free_list = (k.envs e).env_link;
}

unfoldable pub with_directory : ℕ → Kernel → ℕ → Error ⊎ (ℕ × Pages) → Error ⊎ (ℕ × Kernel × Pages)
with_directory parent_id k e (inl r) = inl r
with_directory parent_id k e (inr (pgdir, p)) = inr (e, commit parent_id pgdir k e, p)

unfoldable pub alloc_env : ℕ → Kernel → Pages → Option ℕ → Error ⊎ (ℕ × Kernel × Pages)
alloc_env parent_id k p none = inl e_no_free_env
alloc_env parent_id k p (some e) = with_directory parent_id k e (env_setup_vm p)

abbrev pub env_alloc : ℕ → Kernel → Pages → Error ⊎ (ℕ × Kernel × Pages)
env_alloc parent_id k p = alloc_env parent_id k p k.env_free_list

-- The last lines of `env_free`, which return the slot to the free list.
unfoldable pub env_release : ℕ → Kernel → Kernel
env_release e k =
    record (put_env k e (record (k.envs e) { env_status = env_free; env_link = k.env_free_list })) {
      env_free_list = some e;
    }

-- `env_init`, without the segment registers: the loop over the first `n` slots, then its end.
unfoldable pub init_envs : ℕ → Envs → Envs
init_envs zero envs = envs
init_envs (suc i) envs =
    let envs' = init_envs i envs in
    write_env envs' i
      (record (envs' i) { env_id = 0; env_status = env_free; env_link = some (i + 1) })

unfoldable pub env_init : Kernel → Kernel
env_init k =
    let envs = init_envs nenv k.envs in
    record k {
      envs = write_env envs 1023 (record (envs 1023) { env_link = none });
      env_free_list = some 0;
    }

-- What `envid2env` stores, its error, or the dereference of a NULL `curenv`.
pub data Lookup : Type 0 where
  stored : Option ℕ → Lookup
  failed : Lookup
  null_curenv : Lookup

-- `e != curenv && e->env_parent_id != curenv->env_id`
abbrev pub no_child : Kernel → ℕ → Option ℕ → Lookup
no_child k e none = null_curenv
no_child k e (some c) =
    if not (e == c) && not ((k.envs e).env_parent_id == (k.envs c).env_id)
    then failed
    else stored (some e)

unfoldable pub envid2env : Kernel → ℕ → Bool → Lookup
envid2env k envid checkperm =
    if envid == 0
    then stored k.curenv
    else let e = envx envid in
      if is_free (k.envs e).env_status || not ((k.envs e).env_id == envid)
      then failed
      else if checkperm
      then no_child k e k.curenv
      else stored (some e)

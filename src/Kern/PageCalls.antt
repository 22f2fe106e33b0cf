-- ===== src/Kern/PageCalls.antt =====
-- Calls of kern/syscall.c on pages and messages: `check_perm` to `env_page_map`, the `sys_page_`
-- calls and IPC. `c` is the slot of `curenv`. A dispatch to `sched_yield` ends a call here.
pub mod Alloc
pub mod Messages
use sisop_mendez.Base.{
  Bool, Option, false, if◌then◌else◌, leb, none, not, some, true, ℕ, ◌%◌, ◌&&◌, ◌/◌, ◌==◌, ◌||◌,
}
use sisop_mendez.Kern.Envs.{
  Error, Lookup, e_bad_env, e_inval, e_ipc_not_recv, e_no_mem, envid2env, failed, null_curenv,
  stored,
}
use sisop_mendez.Kern.Pages.{Pages, page_alloc, pgsize, utop}
use sisop_mendez.Kern.Paging.{
  Inserted, Looked, bad_page, bit, or_bits, inserted, looked_up, no_memory, no_page_there,
  page_insert, page_lookup, page_remove, panicked,
}
use sisop_mendez.Kern.Types.{Kernel, answer_zero, env_not_runnable, env_runnable, put_env}

-- What a call ends in: its value, an error, both with the state left behind, the switch to another
-- environment, or a panic or the use of a pointer that points nowhere.
pub data Reply {ℓ} (S : Type ℓ) : Type ℓ where
  returns : S → Reply S
  fails : Error → S → Reply S
  yields : S → Reply S
  faults : Reply S

-- The part of `check_perm` on an entry, which its callers here pass as NULL.
unfoldable pub check_pte : ℕ → Option ℕ → Option Error
check_pte perm none = none
check_pte perm (some pte) =
    if not (pte == 0) && not (bit pte 1)
    then some e_inval
    else if bit perm 2 && not (bit pte 2)
    then some e_inval
    else none

-- The bits of PTE_SYSCALL are 0 to 2 and 9 to 11.
unfoldable pub check_perm : ℕ → Option ℕ → Option Error
check_perm perm pte =
    if not (perm / 8 % 64 == 0) || not (perm / 4096 == 0)
    then some e_inval
    else if not (bit perm 1) || not (bit perm 4)
    then some e_inval
    else check_pte perm pte

unfoldable pub of_insert : Inserted → Reply Pages
of_insert (inserted p) = returns p
of_insert (no_memory p) = fails e_no_mem p
of_insert panicked = faults

unfoldable pub insert_new : ℕ → ℕ → ℕ → Pages → Option (ℕ × Pages) → Reply Pages
insert_new pgdir va perm p none = fails e_no_mem p
insert_new pgdir va perm p (some (pp, p')) = of_insert (page_insert p' pgdir pp va perm)

unfoldable pub alloc_checked : Pages → ℕ → ℕ → ℕ → Option Error → Reply Pages
alloc_checked p pgdir va perm (some r) = fails r p
alloc_checked p pgdir va perm none = insert_new pgdir va perm p (page_alloc true p)

abbrev pub env_page_alloc : Pages → ℕ → ℕ → ℕ → Reply Pages
env_page_alloc p pgdir va perm = alloc_checked p pgdir va perm (check_perm perm none)

unfoldable pub map_found : Pages → ℕ → ℕ → ℕ → Looked → Reply Pages
map_found p dst dstva perm no_page_there = fails e_inval p
map_found p dst dstva perm bad_page = faults
map_found p dst dstva perm (looked_up pp t j) =
    if bit perm 2 && not (bit (p.frames t j) 2)
    then fails e_inval p
    else of_insert (page_insert p dst pp dstva perm)

abbrev pub env_page_map : Pages → ℕ → ℕ → ℕ → ℕ → ℕ → Reply Pages
env_page_map p src srcva dst dstva perm = map_found p dst dstva perm (page_lookup p src srcva)

-- `va >= UTOP || va % PGSIZE`
abbrev pub is_bad_va : ℕ → Bool
is_bad_va va = leb utop va || not (va % pgsize == 0)

abbrev pub with_flags : ℕ → ℕ
with_flags perm = or_bits 32 perm 5

-- The environment of an id, its page directory, or the error.
unfoldable pub with_env {ℓ} : {S : Type ℓ} → S → Lookup → (ℕ → Reply S) → Reply S
with_env s (stored (some e)) f = f e
with_env s (stored none) f = faults
with_env s failed f = fails e_bad_env s
with_env s null_curenv f = faults

unfoldable pub with_pgdir {ℓ} : {S : Type ℓ} → Option ℕ → (ℕ → Reply S) → Reply S
with_pgdir none f = faults
with_pgdir (some g) f = f g

unfoldable pub sys_page_alloc : Kernel → Pages → ℕ → ℕ → ℕ → Reply Pages
sys_page_alloc k p envid va perm =
    if is_bad_va va
    then fails e_inval p
    else with_env p (envid2env k envid true)
        (λ e. with_pgdir (k.envs e).env_pgdir (λ g. env_page_alloc p g va (with_flags perm)))

unfoldable pub sys_page_map : Kernel → Pages → ℕ → ℕ → ℕ → ℕ → ℕ → Reply Pages
sys_page_map k p srcenvid srcva dstenvid dstva perm =
    if is_bad_va srcva || is_bad_va dstva
    then fails e_inval p
    else with_env p (envid2env k srcenvid true) (λ src.
      with_env p (envid2env k dstenvid true) (λ dst. with_pgdir (k.envs src).env_pgdir (λ g.
        with_pgdir (k.envs dst).env_pgdir (λ h. env_page_map p g srcva h dstva (with_flags perm)))))

unfoldable pub of_removal : Option Pages → Reply Pages
of_removal none = faults
of_removal (some p) = returns p

unfoldable pub sys_page_unmap : Kernel → Pages → ℕ → ℕ → Reply Pages
sys_page_unmap k p envid va =
    if is_bad_va va
    then fails e_inval p
    else with_env p (envid2env k envid true)
        (λ e. with_pgdir (k.envs e).env_pgdir (λ g. of_removal (page_remove p g va)))

-- The end of `sys_ipc_try_send`: the message of `c` is with `dst`, which runs again.
unfoldable pub deliver : ℕ → ℕ → ℕ → Kernel → Kernel
deliver c dst value k =
    let e = k.envs dst in
    put_env k dst (record e {
      env_ipc_from = (k.envs c).env_id;
      env_ipc_recving = false;
      env_ipc_value = value;
      env_tf = answer_zero e.env_tf;
      env_status = env_runnable;
    })

abbrev pub set_ipc_perm : ℕ → ℕ → Kernel → Kernel
set_ipc_perm dst perm k = put_env k dst (record (k.envs dst) { env_ipc_perm = perm })

unfoldable pub delivered : ℕ → ℕ → ℕ → ℕ → Kernel → Reply Pages → Reply (Kernel × Pages)
delivered c dst value perm k (returns p) =
    returns (deliver c dst value (set_ipc_perm dst perm k), p)
delivered c dst value perm k (fails r p) = fails r (k, p)
delivered c dst value perm k (yields p) = yields (k, p)
delivered c dst value perm k faults = faults

-- `env_page_alloc`, then `env_page_map` if that went well.
unfoldable pub then_map : ℕ → ℕ → ℕ → ℕ → ℕ → Reply Pages → Reply Pages
then_map src srcva dst dstva perm (returns p) = env_page_map p src srcva dst dstva perm
then_map src srcva dst dstva perm r = r

-- The page of a message, from the entry of `srcva`. Without one `srcpte` is not set.
unfoldable pub send_page :
    ℕ → ℕ → ℕ → ℕ → ℕ → ℕ → ℕ → Kernel → Pages → Looked → Reply (Kernel × Pages)
send_page c dst value perm g h srcva k p no_page_there = faults
send_page c dst value perm g h srcva k p bad_page = faults
send_page c dst value perm g h srcva k p (looked_up pp t j) =
    let pte = p.frames t j in
    let dstva = (k.envs dst).env_ipc_dstva in
    if (not (pte == 0) && not (bit pte 1)) || (bit perm 2 && not (bit pte 2))
    then fails e_inval (k, p)
    else if dstva == 0
    then returns (deliver c dst value k, p)
    else delivered c dst value (with_flags perm) k
        (then_map g srcva h dstva (with_flags perm) (env_page_alloc p h dstva (with_flags perm)))

-- `sys_ipc_try_send` to the environment `dst`.
unfoldable pub try_send : ℕ → Kernel → Pages → ℕ → ℕ → ℕ → ℕ → Reply (Kernel × Pages)
try_send c k p value srcva perm dst =
    if not (k.envs dst).env_ipc_recving
    then fails e_ipc_not_recv (k, p)
    else if leb utop srcva
    then returns (deliver c dst value (set_ipc_perm dst 0 k), p)
    else if not (srcva % pgsize == 0)
    then fails e_inval (k, p)
    else with_pgdir (k.envs c).env_pgdir (λ g.
      with_pgdir (k.envs dst).env_pgdir
        (λ h. send_page c dst value perm g h srcva k p (page_lookup p g srcva)))

unfoldable pub sys_ipc_try_send : ℕ → Kernel → Pages → ℕ → ℕ → ℕ → ℕ → Reply (Kernel × Pages)
sys_ipc_try_send c k p envid value srcva perm =
    with_env (k, p) (envid2env k envid false) (try_send c k p value srcva perm)

-- `sys_ipc_recv`, up to its `sys_yield`.
unfoldable pub sys_ipc_recv : ℕ → Kernel → ℕ → Reply Kernel
sys_ipc_recv c k dstva =
    let k' = put_env k c (record (k.envs c) { env_ipc_recving = true }) in
    if is_bad_va dstva
    then fails e_inval k'
    else yields
        (put_env k' c (record (k'.envs c) { env_ipc_dstva = dstva; env_status = env_not_runnable }))

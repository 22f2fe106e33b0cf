-- ===== src/Kern/Traps.antt =====
-- The page faults of kern/trap.c. `tf` is the trap frame that `trap` has stored in the current
-- environment. What the handler writes to the exception stack is given apart from the pages.
pub mod Frames
use sisop_mendez.Base.{
  Bool, List, Option, [], if◌then◌else◌, ltb, none, some, ℕ, ◌%◌, ◌+◌, ◌-◌, ◌==◌, ◌||◌, ◌∷◌,
}
use sisop_mendez.Kern.Destroy.{Destroyed, env_destroy}
use sisop_mendez.Kern.Pages.{Pages, pgsize, utop}
use sisop_mendez.Kern.Paging.{Checked, accessible, check_panics, fault_at, user_mem_check}
use sisop_mendez.Kern.Sched.{env_run}
use sisop_mendez.Kern.Types.{Kernel, PushRegs, Trapframe, put_env, word}

abbrev pub uxstacktop : ℕ
uxstacktop = utop

-- `exstk` and `exstk_top`
abbrev pub exstk : ℕ
exstk = uxstacktop - pgsize

abbrev pub exstk_top : ℕ
exstk_top = uxstacktop - 1

-- `sizeof(struct UTrapframe)`
abbrev pub utrapframe_size : ℕ
utrapframe_size = 52

pub record UTrapframe : Type 0 where
  pub utf_fault_va : ℕ
  pub utf_err : ℕ
  pub utf_regs : PushRegs
  pub utf_eip : ℕ
  pub utf_eflags : ℕ
  pub utf_esp : ℕ

abbrev pub utrapframe : ℕ → Trapframe → UTrapframe
utrapframe fault_va tf = record {
  utf_fault_va = fault_va;
  utf_err = tf.tf_err;
  utf_regs = tf.tf_regs;
  utf_eip = tf.tf_eip;
  utf_eflags = tf.tf_eflags;
  utf_esp = tf.tf_esp;
}

-- A write to the memory of the environment, at an address.
pub data UserWrite : Type 0 where
  writes_word : ℕ → ℕ → UserWrite
  writes_frame : ℕ → UTrapframe → UserWrite

abbrev pub is_outside : ℕ → Bool
is_outside va = ltb va exstk || ltb exstk_top va

-- The address of the frame, for the stack pointer of the trap.
unfoldable pub frame_at : ℕ → ℕ
frame_at esp =
    if is_outside esp
    then exstk_top - utrapframe_size
    else (esp + word - 4 + word - utrapframe_size) % word

unfoldable pub frame_writes : UTrapframe → List UserWrite
frame_writes utf =
    let frame = writes_frame (frame_at utf.utf_esp) utf ∷ [] in
    if is_outside utf.utf_esp
    then frame
    else writes_word ((utf.utf_esp + word - 4) % word) 0 ∷ frame

-- How the handler ends: a panic, a destroyed environment, or the user's handler, which runs.
pub data Handled : Type 0 where
  kernel_panic : Handled
  destroyed : Destroyed → Handled
  upcall : Kernel → List UserWrite → Handled

unfoldable pub push_frame : ℕ → Kernel → UTrapframe → Handled
push_frame c k utf =
    let e = k.envs c in
    let tmp = frame_at utf.utf_esp in
    if is_outside tmp
    then kernel_panic
    else upcall
        (env_run c (
          put_env k c (record e {
            env_tf = record (e.env_tf) { tf_esp = tmp; tf_eip = e.env_pgfault_upcall };
          })))
        (frame_writes utf)

-- `user_mem_assert`, behind which `rest` goes on. The current environment is the one that it
-- destroys, and then it does not return.
unfoldable pub user_mem_assert : ℕ → Kernel → Pages → Checked → Handled → Handled
user_mem_assert c k p accessible rest = rest
user_mem_assert c k p (fault_at va) rest = destroyed (env_destroy c k p)
user_mem_assert c k p check_panics rest = kernel_panic

-- The upcall of the environment `c`. One without a page directory cannot run.
unfoldable pub to_upcall : ℕ → Kernel → Pages → UTrapframe → Option ℕ → Handled
to_upcall c k p utf none = kernel_panic
to_upcall c k p utf (some g) =
    user_mem_assert c k p (user_mem_check p g exstk pgsize 6) (push_frame c k utf)

unfoldable pub page_fault_handler : ℕ → ℕ → Kernel → Pages → Handled
page_fault_handler fault_va c k p =
    let e = k.envs c in
    if e.env_tf.tf_cs % 4 == 0
    then kernel_panic
    else if e.env_pgfault_upcall == 0
    then destroyed (env_destroy c k p)
    else to_upcall c k p (utrapframe fault_va (e.env_tf)) e.env_pgdir

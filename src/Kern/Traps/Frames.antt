-- ===== src/Kern/Traps/Frames.antt =====
-- Where `page_fault_handler` puts its frame, and when it panics.
use native.Mathlib.Decide.{ℕ_discrete}
use sisop_mendez.Base.{
  Bool-cases, List, Option, [], ap, arith, false, inl, inr, none, refl, some, true, ℕ, ◌%◌, ◌*◌,
  ◌+◌, ◌-◌, ◌<◌, ◌==◌, ◌∙◌, ◌∷◌, ◌≡◌, ◌≢◌, ◌≤◌, ◌⊎◌,
}
use sisop_mendez.Kern.Envs.FreeList.{write_other, write_self}
use sisop_mendez.Kern.Pages.{Pages, pgsize}
use sisop_mendez.Kern.Paging.{accessible, user_mem_check}
use sisop_mendez.Kern.Sched.{env_run, preempt, release}
use sisop_mendez.Kern.Traps.{
  UTrapframe, UserWrite, exstk, exstk_top, frame_at, frame_writes, is_outside, kernel_panic,
  page_fault_handler, push_frame, to_upcall, upcall, user_mem_assert, utrapframe, utrapframe_size,
  writes_frame, writes_word,
}
use sisop_mendez.Kern.Types.{
  Env, Kernel, Trapframe, env_runnable, env_running, is_running, put_env, word,
}

-- The frame has the address and the error of the fault and what the trap interrupted.
pub record Interrupted (fault_va : ℕ) (tf : Trapframe) (utf : UTrapframe) : Type 0 where
  pub address : utf.utf_fault_va ≡ fault_va
  pub error : utf.utf_err ≡ tf.tf_err
  pub registers : utf.utf_regs ≡ tf.tf_regs
  pub eip : utf.utf_eip ≡ tf.tf_eip
  pub eflags : utf.utf_eflags ≡ tf.tf_eflags
  pub esp : utf.utf_esp ≡ tf.tf_esp

-- The stack pointer is not in the exception stack.
abbrev pub IsElsewhere : ℕ → Type 0
IsElsewhere esp = (esp < exstk) ⊎ (exstk_top < esp)

-- The user's handler runs: its frame lies in the exception stack, on its top for a trap on another
-- stack, and otherwise below the stack pointer of the trap, with a word of 0 between.
pub record Pushed (fault_va c : ℕ) (k k' : Kernel) (ws : List UserWrite) : Type 0 where
  pub in_stack :
      (exstk ≤ (k'.envs c).env_tf.tf_esp)
      × ((k'.envs c).env_tf.tf_esp + utrapframe_size ≤ exstk_top)
  pub frame : UTrapframe
  pub interrupted : Interrupted fault_va (k.envs c).env_tf frame
  pub on_top :
      IsElsewhere (k.envs c).env_tf.tf_esp
      → ((k'.envs c).env_tf.tf_esp + utrapframe_size ≡ exstk_top)
        × (ws ≡ writes_frame (k'.envs c).env_tf.tf_esp frame ∷ [])
  pub under :
      exstk ≤ (k.envs c).env_tf.tf_esp
      → (k.envs c).env_tf.tf_esp ≤ exstk_top
      → ((k'.envs c).env_tf.tf_esp + utrapframe_size + 4 ≡ (k.envs c).env_tf.tf_esp)
        × (ws
            ≡ writes_word ((k.envs c).env_tf.tf_esp - 4) 0
              ∷ writes_frame (k'.envs c).env_tf.tf_esp frame
              ∷ [])
  pub goes_to : (k'.envs c).env_tf.tf_eip ≡ (k.envs c).env_pgfault_upcall
  pub running : (k'.envs c).env_status ≡ env_running
  pub others : (i : ℕ) → i ≢ c → k'.envs i ≡ k.envs i

frame_at-room :
    (esp : ℕ)
    → esp < word
    → (esp < exstk) ⊎ (exstk + 56 ≤ esp)
    → (exstk ≤ frame_at esp) × (frame_at esp + utrapframe_size ≤ exstk_top)
unfolding frame_at
frame_at-room esp h r = ground arith

frame_at-under :
    (esp : ℕ) → exstk ≤ esp → esp ≤ exstk_top → frame_at esp ≡ (esp + 2 * word - 56) % word
unfolding frame_at
frame_at-under esp lo hi = ground arith

frame_at-top : (esp : ℕ) → IsElsewhere esp → frame_at esp + utrapframe_size ≡ exstk_top
unfolding frame_at
frame_at-top esp (inl low) = ground arith
frame_at-top esp (inr high) = ground arith

-- What is written for a trap on another stack, and on the exception stack.
frame_writes-top :
    (utf : UTrapframe)
    → IsElsewhere utf.utf_esp
    → frame_writes utf ≡ writes_frame (frame_at utf.utf_esp) utf ∷ []
unfolding frame_writes
frame_writes-top utf (inl low) = ground arith
frame_writes-top utf (inr high) = ground arith

frame_writes-under :
    (utf : UTrapframe)
    → exstk ≤ utf.utf_esp
    → utf.utf_esp ≤ exstk_top
    → frame_writes utf
      ≡ writes_word (utf.utf_esp - 4) 0 ∷ writes_frame (frame_at utf.utf_esp) utf ∷ []
unfolding frame_writes
frame_writes-under utf lo hi = ground arith

-- `env_run` keeps the trap frames, and touches no environment but the one that it takes, if that is
-- the current one.
release_tf : (k : Kernel) (o : Option ℕ) (i : ℕ) → ((release k o).envs i).env_tf ≡ (k.envs i).env_tf
unfolding release
release_tf k none i = refl
release_tf k (some c) i = elim (Bool-cases (is_running (k.envs c).env_status)) [
  | inl e ↦
      let stopped : Env = record (k.envs c) { env_status = env_runnable } in
      rw e (elim (ℕ_discrete i c) [
        | yes at ↦ rw at (ap (λ x. x.env_tf) (write_self k.envs c stopped))
        | no ne ↦ ap (λ x. x.env_tf) (write_other k.envs i c stopped ne)
      ])
  | inr e ↦ rw e refl
]

release_other : (k : Kernel) (c i : ℕ) → i ≢ c → (release k (some c)).envs i ≡ k.envs i
unfolding release
release_other k c i ne = elim (Bool-cases (is_running (k.envs c).env_status)) [
  | inl e ↦ rw e (write_other k.envs i c _ ne)
  | inr e ↦ rw e refl
]

env_run_self :
    (e : ℕ) (k : Kernel)
    → (((env_run e k).envs e).env_tf ≡ (k.envs e).env_tf)
      × (((env_run e k).envs e).env_status ≡ env_running)
unfolding env_run
env_run_self e k = rw (write_self (preempt k).envs e _) (release_tf k k.curenv e, refl)

env_run_other :
    (e : ℕ) (k : Kernel) (i : ℕ) → k.curenv ≡ some e → i ≢ e → (env_run e k).envs i ≡ k.envs i
unfolding env_run
env_run_other e k i own ne =
    write_other (preempt k).envs i e _ ne
    ∙ (ap (λ o. (release k o).envs i) own ∙ release_other k e i ne)

module _ (c : ℕ) (k : Kernel) (own : k.curenv ≡ some c) where
  abbrev esp : ℕ
  esp = (k.envs c).env_tf.tf_esp

  abbrev faulted : ℕ → Kernel
  faulted tmp = put_env k c (record (k.envs c) {
    env_tf = record (k.envs c).env_tf { tf_esp = tmp; tf_eip = (k.envs c).env_pgfault_upcall };
  })

  push_frame-Pushed :
      (fault_va : ℕ)
      → esp < word
      → (esp < exstk) ⊎ (exstk + 56 ≤ esp)
      → (k' : Kernel) × (ws : List UserWrite) × (push_frame c k
            (utrapframe fault_va (k.envs c).env_tf)
          ≡ upcall k' ws)
        × Pushed fault_va c k k' ws
  unfolding push_frame
  push_frame-Pushed fault_va fits r =
      let utf = utrapframe fault_va (k.envs c).env_tf in
      let tmp = frame_at esp in
      let room = frame_at-room esp fits r in
      let inside : is_outside tmp ≡ false = ground (arith, room) in
      let run = env_run_self c (faulted tmp) in
      let put : (faulted tmp).envs c ≡ _ = write_self k.envs c (record (k.envs c) {
        env_tf = record (k.envs c).env_tf { tf_esp = tmp; tf_eip = (k.envs c).env_pgfault_upcall };
      }) in
      let to : ((env_run c (faulted tmp)).envs c).env_tf.tf_esp ≡ tmp =
        ap (λ t. t.tf_esp) (run.0 ∙ ap (λ e. e.env_tf) put) in
      rw inside (
        env_run c (faulted tmp),
        frame_writes utf,
        refl,
        record {
          in_stack = rw to room;
          frame = utf;
          interrupted = record {
            address = refl;
            error = refl;
            registers = refl;
            eip = refl;
            eflags = refl;
            esp = refl;
          };
          on_top = λ away. rw to (frame_at-top esp away, frame_writes-top utf away);
          under = λ lo hi.
              rw to (omega (arith, frame_at-under esp lo hi, r), frame_writes-under utf lo hi);
          goes_to = ap (λ t. t.tf_eip) (run.0 ∙ ap (λ e. e.env_tf) put);
          running = run.1;
          others = λ i ne. env_run_other c (faulted tmp) i own ne ∙ write_other k.envs i c _ ne;
        },
      )

-- The environment `c`, the current one, faults in user mode, has an upcall, and an exception stack
-- that it may write.
pub record Faults (c : ℕ) (k : Kernel) (p : Pages) : Type 0 where
  pub own : k.curenv ≡ some c
  pub user_mode : (k.envs c).env_tf.tf_cs % 4 ≢ 0
  pub has_upcall : (k.envs c).env_pgfault_upcall ≢ 0
  pub fits : (k.envs c).env_tf.tf_esp < word
  pub pgdir : ℕ
  pub has_pgdir : (k.envs c).env_pgdir ≡ some pgdir
  pub may_write : user_mem_check p pgdir exstk pgsize 6 ≡ accessible

module _ (fault_va c : ℕ) (k : Kernel) (p : Pages) (h : Faults c k p) where
  page_fault_handler-push :
      page_fault_handler fault_va c k p ≡ push_frame c k (utrapframe fault_va (k.envs c).env_tf)
  unfolding page_fault_handler to_upcall user_mem_assert
  page_fault_handler-push =
      let user : ((k.envs c).env_tf.tf_cs % 4 == 0) ≡ false = ground (arith, h.user_mode) in
      let some_upcall : ((k.envs c).env_pgfault_upcall == 0) ≡ false =
        ground (arith, h.has_upcall) in
      rw (user, some_upcall, h.has_pgdir, h.may_write) refl

  -- A page fault of an environment in user mode that has an upcall and may write its exception
  -- stack, and whose stack pointer is not in the lowest 56 bytes of that stack, makes the
  -- environment run at its upcall: the frame lies inside the exception stack, and is all that is
  -- written, with its end one byte below the last of that stack, if the stack pointer of the
  -- trap is outside of it; otherwise it ends 4 bytes below that stack pointer, and the word
  -- between is written with 0. The frame has the address and the error of the fault, and all
  -- registers, eip, eflags and esp of the trap; no other environment changes.
  pub page_fault_handler-Pushed :
      ((k.envs c).env_tf.tf_esp < exstk) ⊎ (exstk + 56 ≤ (k.envs c).env_tf.tf_esp)
      → (k' : Kernel) × (ws : List UserWrite) × (page_fault_handler fault_va c k p ≡ upcall k' ws)
        × Pushed fault_va c k k' ws
  page_fault_handler-Pushed r =
      rw page_fault_handler-push (push_frame-Pushed c k h.own fault_va h.fits r)

  -- A page fault of such an environment whose stack pointer is in the lowest 56 bytes of the
  -- exception stack is a panic of the kernel.
  page_fault_handler_panics :
      exstk ≤ (k.envs c).env_tf.tf_esp
      → (k.envs c).env_tf.tf_esp < exstk + 56
      → page_fault_handler fault_va c k p ≡ kernel_panic
  unfolding push_frame frame_at
  page_fault_handler_panics lo hi =
      let under = frame_at-under (k.envs c).env_tf.tf_esp lo (omega arith) in
      let out : is_outside (frame_at (k.envs c).env_tf.tf_esp) ≡ true = ground (arith, under) in
      rw (page_fault_handler-push, out) refl

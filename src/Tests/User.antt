-- ===== src/Tests/User.antt =====
-- The user library of the kernel on a small address space.
use sisop_mendez.Base.{
  [], arith, false, if◌then◌else◌, inr, none, refl, some, true, ℕ, ◌+◌, ◌==◌, ◌∷◌, ◌≡◌,
}
use sisop_mendez.Kern.Envs.{e_bad_env, e_inval, e_ipc_not_recv}
use sisop_mendez.Kern.Types.{Env}
use sisop_mendez.User.{
  Trace, alloc_call, copy_page_of, copy_pages, duppage, followed_by, fork, handled, make, map_call,
  pgfault,
}
use sisop_mendez.User.Copies.{all_made}
use sisop_mendez.User.Faults.{Copied, Space, after_all, pgfault-copies}
use sisop_mendez.User.Forks.{CopiedSpace, fork-CopiedSpace}
use sisop_mendez.User.Ipc.{
  ipc_recv, ipc_send, is_not_recv, panics_on, sent, set_pgfault_handler, store_if, try_sends,
}

-- Pages 1 and 2 of the first table are mapped, the first of them writable.
abbrev directory : ℕ → ℕ
directory i = if i == 0 then 7 else 0

abbrev entries : ℕ → ℕ
entries pn = if pn == 1 then 0x5007 else if pn == 2 then 0x6005 else 0

fork-CopiedSpace_example : CopiedSpace directory entries 4097 (fork all_made directory entries 4097)
fork-CopiedSpace_example = fork-CopiedSpace directory entries 4097

-- The frames behind these pages.
abbrev frames : Space
frames = record {
  mapping = λ va. if va == 0x1000 then some (5, 7) else if va == 0x2000 then some (6, 5) else none;
  memory = λ f i. f + i;
}

-- A write to a page that is neither writable nor copy-on-write.
pgfault-copies_example :
    (t : Trace) × (pgfault all_made directory entries 0x2010 7 ≡ handled t)
    × (t.panicked ≡ false)
    × Copied 0x2000 6 9 frames (after_all 9 t.calls frames)
pgfault-copies_example =
    pgfault-copies directory entries 0x2010 7 6 9 5 frames refl refl (omega arith) (omega arith)
      refl

copy_pages_run :
    (copy_pages all_made directory entries 4097 4).calls
    ≡ map_call 0 4096 4097 4096 0x805
      ∷ map_call 0 4096 0 4096 0x805
      ∷ map_call 0 8192 4097 8192 5
      ∷ []
unfolding copy_pages copy_page_of duppage followed_by make
copy_pages_run = refl

-- The receiver is ready at the third call, for no page.
ipc_send_run :
    ipc_send 0 (
      (λ pg. some e_ipc_not_recv)
      ∷ (λ pg. some e_ipc_not_recv)
      ∷ (λ pg. if pg == 0xeec00000 then none else some e_inval)
      ∷ [])
    ≡ sent 2
unfolding try_sends is_not_recv
ipc_send_run = refl

-- An environment that is gone.
ipc_send_panics_run : ipc_send 4096 ((λ pg. some e_bad_env) ∷ []) ≡ panics_on 0
unfolding try_sends is_not_recv
ipc_send_panics_run = refl

-- The page NULL goes to the kernel as the address 0.
ipc_recv_run :
    (env : Env)
    → ipc_recv (λ pg. if pg == 0 then none else some e_inval) env true 0 false
      ≡ record { from_env = some env.env_ipc_from; perm = none; result = inr env.env_ipc_value }
unfolding ipc_recv store_if
ipc_recv_run env = refl

-- No page for the exception stack: the handler is not installed.
set_pgfault_handler_run : set_pgfault_handler (λ c. false) 0 7 ≡ (alloc_call 0 0xeebff000 7 ∷ [], 0)
unfolding set_pgfault_handler
set_pgfault_handler_run = refl

-- ===== src/Tests/Traps.antt =====
-- Page faults of an environment on its stack, and on its exception stack.
use sisop_mendez.Base.{
  List, arith, if◌then◌else◌, inr, none, refl, some, ℕ, ◌&&◌, ◌+◌, ◌<◌, ◌==◌, ◌^◌, ◌≡◌,
}
use sisop_mendez.Kern.Envs.{user_trapframe}
use sisop_mendez.Kern.Pages.{Pages, pgsize}
use sisop_mendez.Kern.Paging.{
  accessible, allows, check_next, check_pages, is_allowed, table_entry, user_mem_check,
}
use sisop_mendez.Kern.Traps.{UserWrite, exstk, page_fault_handler, upcall}
use sisop_mendez.Kern.Traps.Frames.{Faults, Pushed, page_fault_handler-Pushed}
use sisop_mendez.Kern.Types.{Kernel, env_running}
use sisop_mendez.Tests.Kern.{kernel_with, user}

-- The directory in page 1, a table in page 2, and the exception stack in page 4.
abbrev stack_space : Pages
stack_space = record {
  page_free_list = none;
  pp_link = λ x. none;
  pp_ref = λ x. 1;
  npages = 8;
  frames = λ q j. if q == 1 && j == 954 then 8199 else if q == 2 && j == 1023 then 16391 else 0;
  kern_pgdir = 7;
}

-- The environment in slot 3 runs user code at the given stack pointer.
abbrev faulting : ℕ → Kernel
faulting esp =
    kernel_with
      (λ i. record (user env_running (4096 + i)) {
        env_pgdir = some 1;
        env_pgfault_upcall = 0x800020;
        env_tf = record user_trapframe {
          tf_trapno = 14;
          tf_err = 6;
          tf_eip = 0x800100;
          tf_esp = esp;
        };
      })
      (some 3)

may_write_stack : user_mem_check stack_space 1 exstk pgsize 6 ≡ accessible
unfolding user_mem_check check_pages check_next is_allowed allows table_entry
may_write_stack = refl

faulting-Faults : (esp : ℕ) → esp < 2 ^ 32 → Faults 3 (faulting esp) stack_space
faulting-Faults esp h = record {
  own = refl;
  user_mode = omega arith;
  has_upcall = omega arith;
  fits = h;
  pgdir = 1;
  has_pgdir = refl;
  may_write = may_write_stack;
}

page_fault_handler-Pushed_example :
    (k' : Kernel) × (ws : List UserWrite) × (page_fault_handler 0xdeadbeef 3
        (faulting 0xeebffff0)
        stack_space
      ≡ upcall k' ws)
    × Pushed 0xdeadbeef 3 (faulting 0xeebffff0) k' ws
page_fault_handler-Pushed_example =
    page_fault_handler-Pushed 0xdeadbeef 3 (faulting 0xeebffff0) stack_space
      (faulting-Faults 0xeebffff0 (omega arith)) (inr (omega arith))

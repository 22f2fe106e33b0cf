-- ===== src/Tests/Paging.antt =====
-- Page tables on a machine of eight pages: page 1 is a page directory, page 2 its first table, page 4
-- a page of data, and page 3 the only free page.
use sisop_mendez.Base.{
  All, List, [], arith, if◌then◌else◌, inr, none, refl, some, true, ℕ, ◌&&◌, ◌*◌, ◌+◌, ◌<◌, ◌==◌,
  ◌||◌, ◌∷◌, ◌≡◌, ◌≢◌, ◌⊎◌,
}
use sisop_mendez.Kern.Boot.Free.{IsKept, page_init-IsPaged}
use sisop_mendez.Kern.Destroy.{free_space}
use sisop_mendez.Kern.Destroy.Space.{Returned, free_space-Returned}
use sisop_mendez.Kern.Destroy.Tables.{IsOwned}
use sisop_mendez.Kern.Envs.{e_no_mem}
use sisop_mendez.Kern.PageCalls.{
  alloc_checked, check_perm, check_pte, env_page_alloc, fails, insert_new, of_insert,
}
use sisop_mendez.Kern.PageCalls.Alloc.{AllocEnds, env_page_alloc-Ends}
use sisop_mendez.Kern.Pages.{Pages, add_ref, alloc_page, page_init, write_word, zero_frame}
use sisop_mendez.Kern.Paging.{
  accessible, allows, bit, check_next, check_pages, fault_at, insert_at, inserted, is_allowed,
  new_pte, no_memory, or_bits, page_insert, page_remove, put_table, table_entry, user_mem_check,
  with_table,
}
use sisop_mendez.Kern.Paging.Checks.{Verdict, user_mem_check-Verdict, user_mem_check_wraps}
use sisop_mendez.Kern.Paging.Insertion.{added-IsData, added-IsPaged, with_entry, with_entry-IsPaged}
use sisop_mendez.Kern.Paging.Inserts.{Mapped, page_insert-Mapped}
use sisop_mendez.Kern.Paging.Popped.{popped}
use sisop_mendez.Kern.Paging.Refines.{page_remove-Cleared}
use sisop_mendez.Kern.Paging.Space.{entry, mappings_none, table, vpages}
use sisop_mendez.Kern.Paging.Steps.{Absent, Cleared, IsData, IsPaged}

abbrev pub blank_space : Pages
blank_space = record {
  page_free_list = some 3;
  pp_link = λ x. none;
  pp_ref = λ x. if x == 1 || x == 2 then 1 else 0;
  npages = 8;
  frames = λ x j. if x == 1 && j == 0 then 8199 else 0;
  kern_pgdir = 0;
}

pub blank_space-entry : (v : ℕ) → entry blank_space.frames 1 v ≡ 0
unfolding entry
blank_space-entry v = ground arith

pub blank_space-IsPaged : IsPaged blank_space 1 (3 ∷ [])
blank_space-IsPaged = record {
  chain = (refl, tt, tt);
  free = ((omega arith, refl), tt);
  ends = λ x absent. refl;
  root = (omega arith, tt);
  tree = record {
    not_root = λ i h used. ground (arith, used);
    apart = λ i j h h' used used' same. ground (arith, used, used');
  };
  tables = λ i h used. (ground (arith, used), (ground (arith, used), tt));
  pages = λ v h used. absurd (used (blank_space-entry v));
  counted = λ x. omega (arith, mappings_none blank_space.frames 1 x (λ v h. blank_space-entry v));
  small = λ x. ground arith;
  physical = omega arith;
}

data_page-IsData : IsData blank_space 1 (3 ∷ []) 4
data_page-IsData = record {
  inside = omega arith;
  not_free = (omega arith, tt);
  not_root = omega arith;
  not_table = λ i h used. ground (arith, used);
}

page_insert-Mapped_example :
    ((p' : Pages) × (l' : List ℕ) × (page_insert blank_space 1 4 20480 6 ≡ inserted p')
      × Mapped blank_space 1 5 (4 * 4096 + 7) (3 ∷ []) p' l')
    ⊎ ((page_insert blank_space 1 4 20480 6 ≡ no_memory blank_space)
        × (◌≡◌ {A = List ℕ} (3 ∷ []) [])
        × (◌≡◌ {A = ℕ} 8199 0))
page_insert-Mapped_example =
    page_insert-Mapped blank_space 1 4 20480 6 (3 ∷ []) blank_space-IsPaged data_page-IsData
      (omega arith) (omega arith) (omega arith)

-- The same with page 4 mapped at the page 5, and its reference counted.
abbrev used_space : Pages
used_space = with_entry (add_ref 4 blank_space) 1 0 5 16391

used_space-IsPaged : IsPaged used_space 1 (3 ∷ [])
used_space-IsPaged =
    with_entry-IsPaged (add_ref 4 blank_space) 1 0 5 16391 (3 ∷ [])
      (added-IsPaged blank_space 1 4 (3 ∷ []) blank_space-IsPaged data_page-IsData (omega arith))
      (omega arith) (omega arith) (omega arith) (blank_space-entry 5) (omega arith)
      (added-IsData blank_space 1 4 4 (3 ∷ []) data_page-IsData)
      (omega (arith, mappings_none blank_space.frames 1 4 (λ v h. blank_space-entry v)))

page_remove-Cleared_example :
    (p' : Pages) × (l' : List ℕ) × (page_remove used_space 1 20480 ≡ some p')
    × Cleared used_space 1 5 (3 ∷ []) p' l'
page_remove-Cleared_example =
    page_remove-Cleared used_space 1 20480 (3 ∷ []) used_space-IsPaged (omega arith)

user_mem_check-Verdict_example :
    Verdict used_space.frames 1 5 20480 5 7 (user_mem_check used_space 1 20480 8000 5)
user_mem_check-Verdict_example =
    user_mem_check-Verdict used_space 1 20480 8000 5 (3 ∷ []) used_space-IsPaged (omega arith)

user_mem_check-Verdict_run : user_mem_check used_space 1 20480 8000 5 ≡ fault_at 24576
unfolding user_mem_check check_pages check_next is_allowed allows table_entry with_entry write_word
user_mem_check-Verdict_run = refl

user_mem_check_wraps_example : user_mem_check blank_space 1 0xf0100000 0x10000000 5 ≡ accessible
user_mem_check_wraps_example =
    user_mem_check_wraps blank_space 1 0xf0100000 0x10000000 5 (omega arith) (omega arith)
      (omega arith) (omega arith)

-- A machine of 300 pages before `page_init`, the kernel's pages ending with page 259.
abbrev untouched : Pages
untouched = record {
  page_free_list = none;
  pp_link = λ x. none;
  pp_ref = λ x. 0;
  npages = 300;
  frames = λ x j. 0;
  kern_pgdir = 256;
}

page_init-IsPaged_example :
    (l : List ℕ) × IsPaged (page_init 0x104000 untouched) 256 l
    × All (λ x. (x < 300) × ¬ IsKept 0x104000 x) l
    × ((x : ℕ) → x < 300 → Absent x l → IsKept 0x104000 x)
page_init-IsPaged_example =
    page_init-IsPaged 0x104000 256 untouched (omega arith) refl (λ x. refl) (λ x. refl)
      (inr (inr (inr (omega arith)))) (λ i h. refl)

env_page_alloc-Ends_example :
    AllocEnds blank_space 1 20480 7 (3 ∷ []) (env_page_alloc blank_space 1 20480 7)
env_page_alloc-Ends_example =
    env_page_alloc-Ends blank_space 1 20480 7 (3 ∷ []) blank_space-IsPaged (omega arith)

-- The only free page is taken and lost where the page table is missing.
env_page_alloc-Ends_run :
    env_page_alloc blank_space 1 0x400000 7 ≡ fails e_no_mem (popped blank_space 3)
unfolding alloc_checked check_perm check_pte insert_new alloc_page of_insert page_insert insert_at
    with_table put_table table_entry popped write_word zero_frame
env_page_alloc-Ends_run = refl

used_space-entry :
    (v : ℕ) → v < vpages → entry used_space.frames 1 v ≡ (if v == 5 then 16391 else 0)
unfolding with_entry entry write_word
used_space-entry v h = ground arith

present_table : (i : ℕ) → used_space.frames 1 i ≢ 0 → bit (used_space.frames 1 i) 1 ≡ true
unfolding with_entry write_word
present_table i used = ground (arith, used)

counted_table :
    (i : ℕ) → used_space.frames 1 i ≢ 0 → used_space.pp_ref (table used_space.frames 1 i) ≡ 1
unfolding with_entry write_word
counted_table i used = ground (arith, used)

held : used_space.pp_ref 1 ≡ 1
unfolding with_entry
held = refl

used_space-IsOwned : IsOwned used_space 1 (3 ∷ [])
used_space-IsOwned = record {
  paged = used_space-IsPaged;
  tables = λ i h used. (present_table i used, counted_table i used);
  present = λ v h used. ground (arith, used, used_space-entry v h);
}

free_space-Returned_example :
    (p' : Pages) × (l' : List ℕ) × (free_space used_space 1 ≡ some p')
    × Returned used_space 1 (3 ∷ []) p' l'
unfolding with_entry
free_space-Returned_example =
    free_space-Returned used_space 1 (3 ∷ []) used_space-IsOwned (omega arith) held

-- Bits of `perm` above the low 12 go into the number of the page: page 4 becomes page 5.
new_pte_run : new_pte 4 0x1007 ≡ 5 * 4096 + 7
unfolding new_pte or_bits
new_pte_run = refl

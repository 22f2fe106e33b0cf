-- ===== src/Kern/Paging.antt =====
-- Page tables: `pgdir_walk` to `tlb_invalidate` and `user_mem_check` of kern/pmap.c, and
-- `region_alloc` of kern/env.c. A page directory is the number of its page, `va` and `perm` are of
-- 32 bits. What the processor has cached is not modelled.
pub mod Counts
pub mod Space
pub mod Steps
pub mod Tables
pub mod Popped
pub mod Removal
pub mod Insertion
pub mod Inserts
pub mod Refines
pub mod Masks
pub mod Checks
use sisop_mendez.Base.{
  Bool, Option, and_then, false, if◌then◌else◌, leb, ltb, none, not, some, suc, true, zero, ℕ, ◌%◌,
  ◌&&◌, ◌*◌, ◌+◌, ◌-◌, ◌/◌, ◌==◌, ◌||◌,
}
use sisop_mendez.Kern.Pages.{
  Pages, add_ref, page_alloc, page_decref, pdx, pgnum, pgsize, ptx, round_down, round_up, utop,
  write_word,
}
use sisop_mendez.Kern.Types.{word}

-- What `pgdir_walk` points at: the word `index` of a page table, NULL, or an address that panics.
pub data Walk : Type 0 where
  pte_at : ℕ → ℕ → Walk
  no_table : Walk
  bad_table : Walk

-- The page table that `pgdir_walk` makes, if there is a page for it.
unfoldable pub put_table : Pages → ℕ → ℕ → Option (ℕ × Pages) → Pages
put_table p pgdir i none = p
put_table p pgdir i (some (page, p')) =
    let p'' = add_ref page p' in
    record p'' { frames = write_word p''.frames pgdir i (page * 4096 + 7) }

unfoldable pub with_table : Pages → ℕ → ℕ → Bool → Pages
with_table p pgdir i create =
    if p.frames pgdir i == 0 && create then put_table p pgdir i (page_alloc true p) else p

-- The entry of a page directory leads to its page table.
unfoldable pub table_entry : Pages → ℕ → ℕ → Walk
table_entry p pde j =
    if pde == 0
    then no_table
    else if leb p.npages (pgnum pde)
    then bad_table
    else pte_at (pgnum pde) j

abbrev pub walk_to : Pages → ℕ → ℕ → Walk
walk_to p pgdir va = table_entry p (p.frames pgdir (pdx va)) (ptx va)

abbrev pub pgdir_walk : Pages → ℕ → ℕ → Bool → Pages × Walk
pgdir_walk p pgdir va create =
    let p' = with_table p pgdir (pdx va) create in (p', walk_to p' pgdir va)

-- What `page_lookup` finds: a page and the place of its entry, NULL, or a panic.
pub data Looked : Type 0 where
  looked_up : ℕ → ℕ → ℕ → Looked
  no_page_there : Looked
  bad_page : Looked

-- `!(*pte && PTE_P)` holds of the entry 0 only.
unfoldable pub look_at : Pages → Walk → Looked
look_at p no_table = no_page_there
look_at p bad_table = bad_page
look_at p (pte_at t j) =
    if p.frames t j == 0
    then no_page_there
    else if leb p.npages (pgnum (p.frames t j))
    then bad_page
    else looked_up (pgnum (p.frames t j)) t j

abbrev pub page_lookup : Pages → ℕ → ℕ → Looked
page_lookup p pgdir va = look_at p (walk_to p pgdir va)

unfoldable pub clear_pte : ℕ → ℕ → Option Pages → Option Pages
clear_pte t j none = none
clear_pte t j (some p) = some (record p { frames = write_word p.frames t j 0 })

unfoldable pub remove_page : Pages → Looked → Option Pages
remove_page p no_page_there = some p
remove_page p bad_page = none
remove_page p (looked_up pp t j) = clear_pte t j (page_decref pp p)

abbrev pub page_remove : Pages → ℕ → ℕ → Option Pages
page_remove p pgdir va = remove_page p (page_lookup p pgdir va)

-- `a | b` on `n` bits.
unfoldable pub or_bits : ℕ → ℕ → ℕ → ℕ
or_bits zero a b = 0
or_bits (suc n) a b = (if a % 2 == 1 || b % 2 == 1 then 1 else 0) + 2 * or_bits n (a / 2) (b / 2)

-- `perm | PTE_P`
abbrev pub present : ℕ → ℕ
present perm = if perm % 2 == 0 then perm + 1 else perm

-- `page2pa(pp) | perm | PTE_P`
unfoldable pub new_pte : ℕ → ℕ → ℕ
new_pte pp perm = or_bits 20 pp (perm / 4096) * 4096 + present (perm % 4096)

-- What `page_insert` gives: success, -E_NO_MEM, or a panic.
pub data Inserted : Type 0 where
  inserted : Pages → Inserted
  no_memory : Pages → Inserted
  panicked : Inserted

unfoldable pub set_pte : ℕ → ℕ → ℕ → Option Pages → Inserted
set_pte t j pte none = panicked
set_pte t j pte (some p) = inserted (record p { frames = write_word p.frames t j pte })

unfoldable pub insert_at : Pages → ℕ → ℕ → ℕ → ℕ → Walk → Inserted
insert_at p pgdir pp va perm no_table = no_memory p
insert_at p pgdir pp va perm bad_table = panicked
insert_at p pgdir pp va perm (pte_at t j) =
    set_pte t j (new_pte pp perm) (page_remove (add_ref pp p) pgdir va)

unfoldable pub page_insert : Pages → ℕ → ℕ → ℕ → ℕ → Inserted
page_insert p pgdir pp va perm =
    let p' = with_table p pgdir (pdx va) true in insert_at p' pgdir pp va perm (walk_to p' pgdir va)

-- Whether the bit of value `b` is set.
abbrev pub bit : ℕ → ℕ → Bool
bit w b = w / b % 2 == 1

-- `a & b` on `n` bits.
unfoldable pub and_bits : ℕ → ℕ → ℕ → ℕ
and_bits zero a b = 0
and_bits (suc n) a b = (if a % 2 == 1 && b % 2 == 1 then 1 else 0) + 2 * and_bits n (a / 2) (b / 2)

-- `((*pte) & (perm | PTE_P)) == (perm | PTE_P)`
unfoldable pub allows : ℕ → ℕ → Bool
unfolding and_bits or_bits
allows pte perm = and_bits 32 pte (or_bits 32 perm 1) == or_bits 32 perm 1

unfoldable pub is_allowed : Pages → ℕ → Walk → Option Bool
is_allowed p perm no_table = some false
is_allowed p perm bad_table = none
is_allowed p perm (pte_at t j) = some (allows (p.frames t j) perm)

-- `user_mem_check`: 0, or -E_FAULT with `user_mem_check_addr`, or a panic.
pub data Checked : Type 0 where
  accessible : Checked
  fault_at : ℕ → Checked
  check_panics : Checked

unfoldable pub check_next : ℕ → ℕ → Option Bool → Checked → Checked
check_next va_lo va_act none rest = check_panics
check_next va_lo va_act (some true) rest = rest
check_next va_lo va_act (some false) rest = fault_at (if ltb va_lo va_act then va_act else va_lo)

-- The loop, with `n` pages to go from `va_act`.
unfoldable pub check_pages : Pages → ℕ → ℕ → ℕ → ℕ → ℕ → Checked
check_pages p pgdir perm va_lo va_act zero = accessible
check_pages p pgdir perm va_lo va_act (suc n) =
    check_next va_lo va_act (is_allowed p perm (walk_to p pgdir va_act))
      (check_pages p pgdir perm va_lo (va_act + pgsize) n)

unfoldable pub user_mem_check : Pages → ℕ → ℕ → ℕ → ℕ → Checked
user_mem_check p pgdir va len perm =
    let va_hi = round_up ((va + len) % word) in
    if ltb utop va_hi
    then fault_at va
    else check_pages p pgdir perm va (round_down va) ((va_hi - round_down va) / pgsize)

-- A page of `region_alloc`: allocated, not zeroed, and inserted; `none` is a panic.
unfoldable pub into_region : Inserted → Option Pages
into_region (inserted p) = some p
into_region (no_memory p) = none
into_region panicked = none

unfoldable pub region_page : ℕ → ℕ → Option (ℕ × Pages) → Option Pages
region_page pgdir va none = none
region_page pgdir va (some (pp, p)) = into_region (page_insert p pgdir pp va 6)

unfoldable pub region_pages : ℕ → Pages → ℕ → ℕ → Option Pages
region_pages zero p pgdir va = some p
region_pages (suc n) p pgdir va =
    and_then (region_page pgdir va (page_alloc false p))
      (λ p'. region_pages n p' pgdir (va + pgsize))

unfoldable pub region_alloc : Pages → ℕ → ℕ → ℕ → Option Pages
region_alloc p pgdir va len =
    let va_hi = round_up ((va + len) % word) in
    if ltb utop va_hi
    then none
    else region_pages ((va_hi - round_down va) / pgsize) p pgdir (round_down va)

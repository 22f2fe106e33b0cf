-- ===== src/Kern/Boot.antt =====
-- How kern/pmap.c sets up memory: `boot_map_region`, `mmio_map_region` and `mem_init`, without its
-- checks of itself and the control registers. TP1_PSE is not defined.
pub mod Free
use sisop_mendez.Base.{
  Option, and_then, if◌then◌else◌, leb, none, some, suc, true, zero, ℕ, ◌%◌, ◌*◌, ◌+◌, ◌-◌, ◌/◌,
  ◌^◌,
}
use sisop_mendez.Kern.Pages.{
  Pages, boot_alloc, kernbase, paddr, page_init, pdx, pgnum, pgsize, round_down, round_up, uvpt,
  write_word, zero_frame,
}
use sisop_mendez.Kern.Paging.{
  Walk, bad_table, no_table, or_bits, page_remove, pte_at, walk_to, with_table,
}
use sisop_mendez.Kern.Types.{word}

-- `*pte = w` for the pointer of `pgdir_walk`.
unfoldable pub put_pte : Walk → ℕ → Pages → Option Pages
put_pte (pte_at t j) w p = some (record p { frames = write_word p.frames t j w })
put_pte no_table w p = none
put_pte bad_table w p = none

-- The body of the loop of `boot_map_region`.
unfoldable pub map_page : Pages → ℕ → ℕ → ℕ → Option Pages
map_page p pgdir va pte =
    let p' = with_table p pgdir (pdx va) true in
    and_then (page_remove p' pgdir va) (put_pte (walk_to p' pgdir va) pte)

-- The loop, with `n` pages to go from `va` and `pa`.
unfoldable pub map_pages : ℕ → Pages → ℕ → ℕ → ℕ → ℕ → Option Pages
map_pages zero p pgdir va pa perm = some p
map_pages (suc n) p pgdir va pa perm =
    and_then (map_page p pgdir va (or_bits 32 (or_bits 32 pa perm) 1))
      (λ p'. map_pages n p' pgdir ((va + pgsize) % word) ((pa + pgsize) % word) perm)

unfoldable pub boot_map_region : Pages → ℕ → ℕ → ℕ → ℕ → ℕ → Option Pages
boot_map_region p pgdir va size pa perm =
    map_pages ((size + pgsize - 1) / pgsize) p pgdir va pa perm

-- `mmio_map_region`, with its static `base`: the region, the new `base`, and the page tables.
unfoldable pub mmio_map_region : ℕ → Pages → ℕ → ℕ → Option (ℕ × ℕ × Pages)
mmio_map_region base p pa size =
    let size' = round_up size in
    let base' = (base + size') % word in
    if leb 0xefc00000 base'
    then none
    else and_then (boot_map_region p p.kern_pgdir base size' (round_down pa) 0x1b)
        (λ p'. some (base, base', p'))

-- The kernel stacks of the first `n` CPUs, CPU `i`'s at the address `stacks i`.
unfoldable pub map_stacks : ℕ → (ℕ → ℕ) → Pages → Option Pages
map_stacks zero stacks p = some p
map_stacks (suc i) stacks p = and_then (map_stacks i stacks p) (λ p'.
    and_then (paddr (stacks i))
      (λ pa. boot_map_region p' p'.kern_pgdir (kernbase - i * 65536 - 32768) 32768 pa 3))

abbrev pub mem_init_mp : (ℕ → ℕ) → Pages → Option Pages
mem_init_mp = map_stacks 8

-- The kernel's page directory, in the first block that is taken.
unfoldable pub make_directory : Pages → ℕ → Pages
make_directory p pa =
    let g = pgnum pa in
    record p { kern_pgdir = g; frames = write_word (zero_frame p.frames g) g (pdx uvpt) (pa + 5) }

-- The regions that `mem_init` maps: `pages`, `envs` and all of physical memory.
unfoldable pub map_kernel : Pages → ℕ → ℕ → ℕ → ℕ → Option Pages
map_kernel p pages pages_size envs envs_size =
    and_then (boot_map_region p p.kern_pgdir 0xef000000 (round_up pages_size) pages 5) (λ p1.
      and_then (boot_map_region p1 p1.kern_pgdir 0xeec00000 (round_up envs_size) envs 5)
        (λ p2. boot_map_region p2 p2.kern_pgdir kernbase (2 ^ 28) 0 3))

-- `mem_init` on memory of `p.npages` pages. A `struct PageInfo` takes 8 bytes, the environments
-- `envs_size`.
unfoldable pub mem_init : ℕ → ℕ → (ℕ → ℕ) → Pages → Option Pages
mem_init end' envs_size stacks p =
    let pages_size = p.npages * 8 % word in
    and_then (boot_alloc end' p.npages 0 pgsize) (λ (dir, next). and_then (paddr dir) (λ dir_pa.
      and_then (boot_alloc end' p.npages next pages_size) (λ (pages, next1).
        and_then (boot_alloc end' p.npages next1 envs_size) (λ (envs, next2).
          and_then (boot_alloc end' p.npages next2 0) (λ (here, next3).
            and_then (paddr here) (λ nextfree. and_then (paddr pages) (λ pages_pa.
              and_then (paddr envs) (λ envs_pa.
                let p1 = make_directory p dir_pa in
                let p2 = page_init nextfree (record p1 { pp_ref = λ i. 0; pp_link = λ i. none }) in
                and_then (map_kernel p2 pages_pa pages_size envs_pa envs_size)
                  (mem_init_mp stacks)))))))))

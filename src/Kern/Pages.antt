-- ===== src/Kern/Pages.antt =====
-- Physical pages: the allocator of kern/pmap.c, and inc/mmu.h. A `struct PageInfo *` is the number
-- of its page, a physical page its 1024 words, and `none` NULL; a function gives `none` where the
-- code panics.
use sisop_mendez.Base.{
  Bool, Option, if◌then◌else◌, leb, ltb, none, not, some, suc, zero, ℕ, ◌%◌, ◌&&◌, ◌*◌, ◌+◌, ◌-◌,
  ◌/◌, ◌==◌, ◌^◌, ◌||◌,
}
use sisop_mendez.Kern.Types.{word}

pub record Pages : Type 0 where
  pub page_free_list : Option ℕ
  pub pp_link : ℕ → Option ℕ
  pub pp_ref : ℕ → ℕ
  pub npages : ℕ
  pub frames : ℕ → ℕ → ℕ
  pub kern_pgdir : ℕ

abbrev pub update {ℓ} : {A : Type ℓ} → (ℕ → A) → ℕ → A → ℕ → A
update f i a j = if i == j then a else f j

-- A word of one page.
unfoldable pub write_word : (ℕ → ℕ → ℕ) → ℕ → ℕ → ℕ → ℕ → ℕ → ℕ
write_word frames pp i w qq j = if pp == qq && i == j then w else frames qq j

-- A page filled with zeros, and a copy of a page.
unfoldable pub zero_frame : (ℕ → ℕ → ℕ) → ℕ → ℕ → ℕ → ℕ
zero_frame frames pp qq j = if pp == qq then 0 else frames qq j

unfoldable pub copy_frame : (ℕ → ℕ → ℕ) → ℕ → ℕ → ℕ → ℕ → ℕ
copy_frame frames dst src qq j = if dst == qq then frames src j else frames qq j

-- `PDX`, `PTX`, and the number of the page of an entry, `PGNUM(PTE_ADDR(pte))`.
abbrev pub pdx : ℕ → ℕ
pdx va = va / 2 ^ 22 % 1024

abbrev pub ptx : ℕ → ℕ
ptx va = va / 2 ^ 12 % 1024

abbrev pub pgnum : ℕ → ℕ
pgnum pa = pa / 2 ^ 12

abbrev pub pgsize : ℕ
pgsize = 4096

abbrev pub uvpt : ℕ
uvpt = 0xef400000

abbrev pub kernbase : ℕ
kernbase = 0xf0000000

abbrev pub utop : ℕ
utop = 0xeec00000

-- `ROUNDDOWN` and `ROUNDUP` to a page, on `uint32_t`.
abbrev pub round_down : ℕ → ℕ
round_down a = a / pgsize * pgsize

abbrev pub round_up : ℕ → ℕ
round_up a = round_down ((a + pgsize - 1) % word)

-- `page_alloc` from its test of the free list; `zero` is ALLOC_ZERO.
unfoldable pub alloc_page : Bool → Pages → Option ℕ → Option (ℕ × Pages)
alloc_page zero' p none = none
alloc_page zero' p (some pp) = some (
  pp,
  record p {
    page_free_list = p.pp_link pp;
    pp_link = update p.pp_link pp none;
    frames = if zero' then zero_frame p.frames pp else p.frames;
  },
)

abbrev pub page_alloc : Bool → Pages → Option (ℕ × Pages)
page_alloc zero' p = alloc_page zero' p p.page_free_list

-- `page_free` with the link of the page.
unfoldable pub free_page : ℕ → Pages → Option ℕ → Option Pages
free_page pp p (some next) = none
free_page pp p none =
    some (record p { pp_link = update p.pp_link pp p.page_free_list; page_free_list = some pp })

unfoldable pub page_free : ℕ → Pages → Option Pages
page_free pp p = if not (p.pp_ref pp == 0) then none else free_page pp p (p.pp_link pp)

-- `--pp->pp_ref`, in 16 bits
abbrev pub drop_ref : ℕ → Pages → Pages
drop_ref pp p = record p { pp_ref = update p.pp_ref pp ((p.pp_ref pp + 2 ^ 16 - 1) % 2 ^ 16) }

-- `pp->pp_ref++`
abbrev pub add_ref : ℕ → Pages → Pages
add_ref pp p = record p { pp_ref = update p.pp_ref pp ((p.pp_ref pp + 1) % 2 ^ 16) }

unfoldable pub page_decref : ℕ → Pages → Option Pages
page_decref pp p =
    if (drop_ref pp p).pp_ref pp == 0 then page_free pp (drop_ref pp p) else some (drop_ref pp p)

-- `PADDR`; `none` is its panic.
unfoldable pub paddr : ℕ → Option ℕ
paddr kva = if ltb kva kernbase then none else some (kva - kernbase)

unfoldable pub take_block : ℕ → ℕ → Option ℕ → Option (ℕ × ℕ)
take_block npages result none = none
take_block npages result (some last) =
    if leb (pgsize * npages % word) last then none else some (result, round_up (last + kernbase))

-- `boot_alloc`, with the address `end` and `nextfree`, which is NULL at first: the block, and the
-- new `nextfree`.
unfoldable pub boot_alloc : ℕ → ℕ → ℕ → ℕ → Option (ℕ × ℕ)
boot_alloc end' npages nextfree n =
    let result = if nextfree == 0 then round_up end' else nextfree in
    take_block npages result (paddr ((result + n) % word))

-- Where `page_init` puts no page into the free list: page 0, MPENTRY_PADDR, the hole below
-- EXTPHYSMEM, and what the kernel has taken behind it, up to the physical address `nextfree`.
unfoldable pub is_reserved : ℕ → ℕ → Bool
is_reserved nextfree i =
    i == 0
    || pgnum 0x7000 == i
    || (leb (pgnum 0xa0000) i && ltb i (pgnum 0x100000))
    || (leb (pgnum 0x100000) i && ltb i (pgnum nextfree))

-- The body of the loop of `page_init`.
unfoldable pub init_page : ℕ → ℕ → Pages → Pages
init_page nextfree i p =
    let p' = record p { pp_link = update p.pp_link i none } in
    if is_reserved nextfree i then p' else record p' {
      pp_link = update p'.pp_link i p'.page_free_list;
      pp_ref = update p'.pp_ref i 0;
      page_free_list = some i;
    }

-- The first `n` rounds of the loop, `nextfree` being what `boot_alloc(0)` gives,
-- as a physical address.
unfoldable pub init_pages : ℕ → ℕ → Pages → Pages
init_pages nextfree zero p = p
init_pages nextfree (suc n) p = init_page nextfree n (init_pages nextfree n p)

unfoldable pub page_init : ℕ → Pages → Pages
page_init nextfree p = init_pages nextfree p.npages p

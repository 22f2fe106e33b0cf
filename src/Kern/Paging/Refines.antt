-- ===== src/Kern/Paging/Refines.antt =====
-- What `page_lookup`, `page_remove` and `page_insert` do to an address space, seen as a word for
-- each virtual page.
use mathlib.Core.Path.{subst}
use sisop_mendez.Base.{
  Bool-cases, List, ap, arith, if◌then◌else◌, inl, inr, refl, some, suc, sym, zero, ℕ, ◌%◌, ◌*◌,
  ◌+◌, ◌/◌, ◌<◌, ◌==◌, ◌^◌, ◌∙◌, ◌≡◌, ◌≢◌, ◌≤◌,
}
use sisop_mendez.Kern.Pages.{Pages, add_ref, page_decref, pdx, pgnum, ptx, utop}
use sisop_mendez.Kern.Paging.{
  clear_pte, insert_at, inserted, look_at, looked_up, new_pte, no_page_there, or_bits, page_lookup,
  page_remove, present, pte_at, remove_page, set_pte, table_entry, walk_to,
}
use sisop_mendez.Kern.Paging.Insertion.{
  added-IsData, added-IsPaged, referenced-Absent, with_entry, with_entry-IsPaged,
  with_entry-elsewhere, with_entry-entry, with_entry-mappings,
}
use sisop_mendez.Kern.Paging.Removal.{place, removed, target}
use sisop_mendez.Kern.Paging.Space.{entry, mappings, table, vpages}
use sisop_mendez.Kern.Paging.Steps.{Cleared, IsData, IsPaged}

-- The number of a page is its place in the directory and in the table.

place_of : (va : ℕ) → va < utop → pdx va * 1024 + ptx va ≡ pgnum va
place_of va h = omega arith

entry-place :
    (frames : ℕ → ℕ → ℕ) (g va : ℕ)
    → va < utop
    → entry frames g (pgnum va)
      ≡ (if frames g (pdx va) == 0 then 0 else frames (table frames g (pdx va)) (ptx va))
unfolding entry
entry-place frames g va h =
    let i : pgnum va / 1024 ≡ pdx va = omega arith in
    let j : pgnum va % 1024 ≡ ptx va = omega arith in rw (i, j) refl

-- The pointer `pgdir_walk` gives, and the page `page_lookup` finds.

pub page_lookup-entry :
    (p : Pages) (g va : ℕ) (l : List ℕ)
    → IsPaged p g l
    → va < utop
    → page_lookup p g va ≡ (
        if entry p.frames g (pgnum va) == 0
        then no_page_there
        else looked_up (pgnum (entry p.frames g (pgnum va))) (table p.frames g (pdx va)) (ptx va))
unfolding look_at table_entry
page_lookup-entry p g va l paged h =
    let inside : entry p.frames g (pgnum va) ≢ 0 → pgnum (entry p.frames g (pgnum va)) < p.npages =
      λ used. (paged.pages (pgnum va) (omega arith) used).inside in
    ground (arith, entry-place p.frames g va h, paged.tables (pdx va) (omega arith), inside)

pub walk_to-there :
    (p : Pages) (g va : ℕ) (l : List ℕ)
    → IsPaged p g l
    → va < utop
    → p.frames g (pdx va) ≢ 0
    → walk_to p g va ≡ pte_at (table p.frames g (pdx va)) (ptx va)
unfolding table_entry
walk_to-there p g va l paged h used = ground (arith, (paged.tables (pdx va) (omega arith) used).0)

-- In an address space in order, for an address below UTOP, `page_remove` never panics: it clears the
-- entry of the page, leaves every other one, the directory and the contents of the pages that may be
-- mapped, takes from each page as many references as mappings, loses no page, and leaves the address
-- space in order.
pub page_remove-Cleared :
    (p : Pages) (g va : ℕ) (l : List ℕ)
    → IsPaged p g l
    → va < utop
    → (p' : Pages) × (l' : List ℕ) × (page_remove p g va ≡ some p') × Cleared p g (pgnum va) l p' l'
unfolding remove_page target place
page_remove-Cleared p g va l paged h = elim (Bool-cases (entry p.frames g (pgnum va) == 0)) [
  | inl none' ↦ (
    p,
    l,
    rw (page_lookup-entry p g va l paged h, none') refl,
    record {
      paged = paged;
      entries = λ u hu. ground (arith, none');
      directory = λ k. refl;
      npages = refl;
      slack = λ y. refl;
      contents = λ x k d. refl;
      lost = λ y absent unused. (absent, unused);
    },
  )
  | inr there ↦
      let e = entry-place p.frames g va h in
      let used : p.frames g (pdx va) ≢ 0 = ground (arith, e, there) in
      let mapped : entry p.frames g (pdx va * 1024 + ptx va) ≢ 0 =
        rw (place_of va h) (ground (arith, there)) in
      rw (page_lookup-entry p g va l paged h, there)
        (subst
          (λ v.
            (p' : Pages) × (l' : List ℕ) × (clear_pte (table p.frames g (pdx va)) (ptx va)
                (page_decref (pgnum (entry p.frames g v)) p)
              ≡ some p')
            × Cleared p g v l p' l')
          (place_of va h)
          (removed p g (pdx va) (ptx va) l paged (omega arith) (omega arith) used mapped))
]

-- The entry that `page_insert` writes.
bit_or_zero : (n a : ℕ) → a < 2 ^ n → or_bits n a 0 ≡ a
unfolding or_bits
bit_or_zero zero a h = omega arith
bit_or_zero (suc n) a h = let rest = bit_or_zero n (a / 2) (omega arith) in ground (arith, rest)

pub new_pte_lem :
    (pp perm : ℕ) → pp < 2 ^ 20 → perm < 4096 → new_pte pp perm ≡ pp * 4096 + present perm
unfolding new_pte
new_pte_lem pp perm h small =
    let high : perm / 4096 ≡ 0 = omega arith in
    let low : perm % 4096 ≡ perm = omega arith in rw (high, low, bit_or_zero 20 pp h) refl

pub pgnum-pte : (pp perm : ℕ) → perm < 4096 → pgnum (pp * 4096 + present perm) ≡ pp
pgnum-pte pp perm h = ground arith

pub pte-present : (pp perm : ℕ) → pp * 4096 + present perm ≢ 0
pte-present pp perm = ground arith

-- A page that may be mapped still may, if it has a reference left.
Cleared-IsData :
    (p : Pages) (g x v : ℕ) (l : List ℕ) (p' : Pages) (l' : List ℕ)
    → IsData p g l x
    → Cleared p g v l p' l'
    → 1 ≤ p'.pp_ref x
    → IsData p' g l' x
Cleared-IsData p g x v l p' l' d cleared held = record {
  inside = rw cleared.npages d.inside;
  not_free = referenced-Absent p' x l' cleared.paged.free held;
  not_root = d.not_root;
  not_table = λ k hk there.
      rw (cleared.directory k) (d.not_table k hk (λ z. there (cleared.directory k ∙ z)));
}

-- The end of `page_insert`, with the page table there.
pub insert-there :
    (p : Pages) (g pp va perm : ℕ) (l : List ℕ)
    → IsPaged p g l
    → IsData p g l pp
    → va < utop
    → perm < 4096
    → p.pp_ref pp + 1 < 2 ^ 16
    → p.frames g (pdx va) ≢ 0
    → (p' : Pages) × (l' : List ℕ) × (insert_at p g pp va perm (walk_to p g va) ≡ inserted p')
      × IsPaged p' g l'
      × ((u : ℕ)
          → u < vpages
          → entry p'.frames g u
            ≡ (if u == pgnum va then pp * 4096 + present perm else entry p.frames g u))
      × ((y : ℕ) → p'.pp_ref y + mappings p.frames g y ≡ p.pp_ref y + mappings p'.frames g y)
      × ((x k : ℕ) → IsData p g l x → p'.frames x k ≡ p.frames x k)
unfolding insert_at set_pte with_entry
insert-there p g pp va perm l paged d h small room used =
    let q : Pages = add_ref pp p in
    let qd : IsData q g l pp = added-IsData p g pp pp l d in
    let (p2, l2, gone, cleared) =
      page_remove-Cleared q g va l (added-IsPaged p g pp l paged d room) h in
    let w : ℕ = pp * 4096 + present perm in
    let of_w : pgnum w ≡ pp = pgnum-pte pp perm small in
    let full : w ≢ 0 = pte-present pp perm in
    let room2 : mappings p2.frames g pp + 1 ≤ p2.pp_ref pp =
      ground (arith, cleared.slack pp, paged.counted pp) in
    let d2 : IsData p2 g l2 pp =
      Cleared-IsData q g pp (pgnum va) l p2 l2 qd cleared (omega (arith, room2)) in
    let used2 : p2.frames g (pdx va) ≢ 0 = λ z. used (sym (cleared.directory (pdx va)) ∙ z) in
    let empty2 : entry p2.frames g (pdx va * 1024 + ptx va) ≡ 0 =
      rw (place_of va h, cleared.entries (pgnum va) (omega arith)) (ground arith) in
    let fit : IsData p2 g l2 (pgnum w) = subst (IsData p2 g l2) (sym of_w) d2 in
    let room_w : mappings p2.frames g (pgnum w) + 1 ≤ p2.pp_ref (pgnum w) = rw of_w room2 in
    (
      with_entry p2 g (pdx va) (ptx va) w,
      l2,
      rw
          (
            walk_to-there p g va l paged h used,
            new_pte_lem pp perm (omega (arith, d.inside, paged.physical)) small,
            gone,
            cleared.directory (pdx va),
          )
          refl,
      with_entry-IsPaged p2 g (pdx va) (ptx va) w l2 cleared.paged (omega arith) (omega arith) used2
          empty2 full fit room_w,
      λ u hu. ground (
        arith,
        place_of va h,
        cleared.entries u hu,
        with_entry-entry p2 g (pdx va) (ptx va) w l2 cleared.paged (omega arith) (omega arith) used2
            empty2 full fit room_w u hu,
      ),
      λ y. ground (
        arith,
        of_w,
        cleared.slack y,
        with_entry-mappings p2 g (pdx va) (ptx va) w l2 cleared.paged (omega arith) (omega arith)
            used2 empty2 full fit room_w y,
      ),
      λ x k e.
          with_entry-elsewhere p2 g (pdx va) (ptx va) w x k (λ z.
            e.not_table (pdx va) (omega arith) used
              (ap pgnum (sym (cleared.directory (pdx va))) ∙ z))
          ∙ cleared.contents x k (added-IsData p g pp x l e),
    )

-- ===== src/Kern/Paging/Inserts.antt =====
-- `page_insert` refines the map of an address space: it updates one entry, or has no memory.
use sisop_mendez.Base.{
  List, [], arith, if◌then◌else◌, inl, inr, refl, true, ℕ, ◌*◌, ◌+◌, ◌<◌, ◌==◌, ◌^◌, ◌∙◌, ◌≡◌, ◌⊎◌,
}
use sisop_mendez.Kern.Pages.{Pages, pdx, pgnum, utop}
use sisop_mendez.Kern.Paging.{
  insert_at, inserted, no_memory, page_insert, present, table_entry, with_table,
}
use sisop_mendez.Kern.Paging.Refines.{insert-there}
use sisop_mendez.Kern.Paging.Space.{entry, mappings, vpages}
use sisop_mendez.Kern.Paging.Steps.{Absent, IsData, IsPaged, mappings_cong}
use sisop_mendez.Kern.Paging.Tables.{with_table-Tabled}

-- What `page_insert` has done: the entry `w` for the page `v`, every other entry as before, and each
-- page that was not free with as many references beyond its mappings as before.
pub record Mapped (p : Pages) (g v w : ℕ) (l : List ℕ) (p' : Pages) (l' : List ℕ) : Type 0 where
  pub paged : IsPaged p' g l'
  pub entries :
      (u : ℕ) → u < vpages → entry p'.frames g u ≡ (if u == v then w else entry p.frames g u)
  pub contents : (x k : ℕ) → IsData p g l x → p'.frames x k ≡ p.frames x k
  pub references :
      (y : ℕ)
      → Absent y l
      → p'.pp_ref y + mappings p.frames g y ≡ p.pp_ref y + mappings p'.frames g y

-- In an address space in order, for an address below UTOP, permissions of 12 bits and a page that may
-- be mapped and has less than 65535 references, `page_insert` never panics. Only if the free list is
-- empty and the page table is missing it has no memory, and has changed nothing; otherwise the page
-- is mapped as `Mapped` says.
pub page_insert-Mapped :
    (p : Pages) (g pp va perm : ℕ) (l : List ℕ)
    → IsPaged p g l
    → IsData p g l pp
    → va < utop
    → perm < 4096
    → p.pp_ref pp + 1 < 2 ^ 16
    → ((p' : Pages) × (l' : List ℕ) × (page_insert p g pp va perm ≡ inserted p')
        × Mapped p g (pgnum va) (pp * 4096 + present perm) l p' l')
      ⊎ ((page_insert p g pp va perm ≡ no_memory p) × (l ≡ []) × (p.frames g (pdx va) ≡ 0))
unfolding page_insert insert_at table_entry
page_insert-Mapped p g pp va perm l paged d h small room =
    let (l1, tabled) = with_table-Tabled p g (pdx va) l paged (omega arith) in
    elim tabled.there [
      | inl used ↦
          let q : Pages = with_table p g (pdx va) true in
          let refs : (y : ℕ) → Absent y l → q.pp_ref y ≡ p.pp_ref y = tabled.refs_data in
          let (p', l', done, paged', entries, references, contents) =
            insert-there q g pp va perm l1 tabled.paged (tabled.data_page pp d) h small
              (rw (refs pp d.not_free) room) used in
          inl (
            p',
            l',
            done,
            record {
              paged = paged';
              entries = λ u hu. rw (entries u hu, tabled.same u hu) refl;
              contents = λ x k e. contents x k (tabled.data_page x e) ∙ tabled.contents x k e;
              references = λ y absent. omega (
                arith,
                references y,
                refs y absent,
                mappings_cong p.frames q.frames g y tabled.same,
              );
            },
          )
      | inr (full, same, missing) ↦ inr (rw (same, missing) refl, full, missing)
    ]

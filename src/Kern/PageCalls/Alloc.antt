-- ===== src/Kern/PageCalls/Alloc.antt =====
-- `env_page_alloc`: a new page in an address space.
use mathlib.Core.Path.{subst}
use sisop_mendez.Base.{
  List, Option, Option-cases, [], ap, arith, if◌then◌else◌, inl, inr, none, refl, some, sym, true,
  ℕ, ◌*◌, ◌+◌, ◌<◌, ◌==◌, ◌^◌, ◌∙◌, ◌∷◌, ◌≡◌, ◌⊎◌,
}
use sisop_mendez.Kern.Chains.{Chain}
use sisop_mendez.Kern.Envs.{e_no_mem}
use sisop_mendez.Kern.PageCalls.{
  Reply, alloc_checked, check_perm, env_page_alloc, fails, faults, insert_new, of_insert, returns,
  yields,
}
use sisop_mendez.Kern.Pages.{Pages, alloc_page, pdx, pgnum, utop}
use sisop_mendez.Kern.Paging.{page_insert, present}
use sisop_mendez.Kern.Paging.Inserts.{page_insert-Mapped}
use sisop_mendez.Kern.Paging.Popped.{
  page-IsData, popped, popped-IsPaged, popped-dir, popped-entry, popped-ref, popped-zero,
}
use sisop_mendez.Kern.Paging.Space.{entry, mappings, vpages}
use sisop_mendez.Kern.Paging.Steps.{Absent, IsData, IsPaged}

-- The page `page`, the first of the free list, is mapped at the page `v` by the entry `w`: it is
-- filled with zeros, has as many references as mappings, and every other entry is as before.
pub record Given (p : Pages) (g v w page : ℕ) (p' : Pages) : Type 0 where
  pub left : List ℕ
  pub paged : IsPaged p' g left
  pub entries :
      (u : ℕ) → u < vpages → entry p'.frames g u ≡ (if u == v then w else entry p.frames g u)
  pub zeroed : (k : ℕ) → p'.frames page k ≡ 0
  pub counted : p'.pp_ref page ≡ mappings p'.frames g page

-- How `env_page_alloc` ends, by its answer.
abbrev pub AllocEnds : Pages → ℕ → ℕ → ℕ → List ℕ → Reply Pages → Type 0
AllocEnds p g va perm l (returns p') =
    (page : ℕ) × (l' : List ℕ) × (l ≡ page ∷ l')
    × Given p g (pgnum va) (page * 4096 + present perm) page p'
AllocEnds p g va perm l (fails e p') =
    ((check_perm perm none ≡ some e) × (p' ≡ p))
    ⊎ ((e ≡ e_no_mem) × (l ≡ []) × (p' ≡ p))
    ⊎ ((e ≡ e_no_mem)
        × ((page : ℕ) × (l ≡ page ∷ []) × (p' ≡ popped p page) × (p.frames g (pdx va) ≡ 0)))
AllocEnds p g va perm l (yields p') = ⊥
AllocEnds p g va perm l faults = ⊥

-- The new page goes into `page_insert`.
insert_popped-Ends :
    (p : Pages) (g va perm page : ℕ) (l : List ℕ)
    → IsPaged p g (page ∷ l)
    → Chain p.pp_link (p.pp_link page) l
    → Absent page l
    → va < utop
    → perm < 4096
    → AllocEnds p g va perm (page ∷ l) (of_insert (page_insert (popped p page) g page va perm))
unfolding of_insert
insert_popped-Ends p g va perm page l paged chain new h small =
    let q : Pages = popped p page in
    let d : IsData q g l page = page-IsData p g page l paged chain new in
    let same = popped-entry p g page l paged chain new in
    let unused : q.pp_ref page ≡ 0 = popped-ref p page paged.free.0.1 in
    let room : q.pp_ref page + 1 < 2 ^ 16 = omega (arith, unused) in
    elim (page_insert-Mapped q g page va perm l (popped-IsPaged p g page l paged chain new) d h
      small room) [
        | inl (p', l'', done, mapped) ↦ rw done (
          page,
          l,
          refl,
          record {
            left = l'';
            paged = mapped.paged;
            entries = λ u hu. rw (mapped.entries u hu, same u hu) refl;
            zeroed = λ k. mapped.contents page k d ∙ popped-zero p page k;
            counted = omega (
              arith,
              mapped.references page new,
              unused,
              (popped-IsPaged p g page l paged chain new).counted page,
            );
          },
        )
        | inr (failed', empty, missing) ↦ rw failed' (
            inr (
              inr (
                refl,
                (
                  page,
                  ap (λ t. page ∷ t) empty,
                  refl,
                  sym (popped-dir p g page l paged chain new (pdx va)) ∙ missing,
                ),
              )))
      ]

insert_new-Ends :
    (p : Pages) (g va perm : ℕ) (l : List ℕ) (o : Option ℕ)
    → Chain p.pp_link o l
    → IsPaged p g l
    → va < utop
    → perm < 4096
    → AllocEnds p g va perm l (insert_new g va perm p (alloc_page true p o))
unfolding insert_new alloc_page popped
insert_new-Ends p g va perm [] none c paged h small = inr (inl (refl, refl, refl))
insert_new-Ends p g va perm (x ∷ l) none c paged h small = absurd c
insert_new-Ends p g va perm [] (some page) c paged h small = absurd c
insert_new-Ends p g va perm (x ∷ l) (some page) (e, c, new) paged h small =
    subst
      (λ (y : ℕ).
        AllocEnds p g va perm (x ∷ l) (insert_new g va perm p (alloc_page true p (some y))))
      (sym e) (insert_popped-Ends p g va perm x l paged c new h small)

small_perm : (perm : ℕ) → check_perm perm none ≡ none → perm < 4096
unfolding check_perm
small_perm perm ok = ground (arith, ok)

-- Over an address space in order and for an address below UTOP, `env_page_alloc` never panics. A
-- permission that `check_perm` refuses is its error, and an empty free list E_NO_MEM, both without a
-- change. Otherwise the first free page is mapped as `Given` says, or, if it was the last one and
-- the page table is missing, the call fails with E_NO_MEM and the page is lost: it is out of the
-- free list and nowhere mapped.
pub env_page_alloc-Ends :
    (p : Pages) (g va perm : ℕ) (l : List ℕ)
    → IsPaged p g l
    → va < utop
    → AllocEnds p g va perm l (env_page_alloc p g va perm)
unfolding alloc_checked
env_page_alloc-Ends p g va perm l paged h = elim (Option-cases (check_perm perm none)) [
  | inl ok ↦
      rw ok
        (insert_new-Ends p g va perm l p.page_free_list paged.chain paged h (small_perm perm ok))
  | inr (e, refused') ↦ rw refused' (inl (refused', refl))
]

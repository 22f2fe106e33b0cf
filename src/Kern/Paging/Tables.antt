-- ===== src/Kern/Paging/Tables.antt =====
-- `pgdir_walk` with a new page table keeps an address space in order.
use mathlib.Core.Path.{subst}
use sisop_mendez.Base.{
  ==_iff, All-map, All-map2, Bool-cases, List, Option, [], arith, if◌then◌else◌, inl, inr, none,
  refl, some, sym, true, ℕ, ◌*◌, ◌+◌, ◌<◌, ◌==◌, ◌∙◌, ◌∷◌, ◌≡◌, ◌≢◌, ◌≤◌, ◌⊎◌,
}
use sisop_mendez.Kern.Chains.{Chain, Chain-cong}
use sisop_mendez.Kern.Pages.{Pages, alloc_page, pgnum, update, write_word, zero_frame}
use sisop_mendez.Kern.Paging.{put_table, with_table}
use sisop_mendez.Kern.Paging.Space.{
  IsTree-put_table, entry, entry-put_table, table, user_tables, vpages,
}
use sisop_mendez.Kern.Paging.Steps.{Absent, IsData, IsPaged, mappings_cong}

-- A new page table, from the head of the free list.
made : Pages → ℕ → ℕ → ℕ → Pages
made p g i page = put_table p g i (alloc_page true p (some page))

module _ (p : Pages) (g i page : ℕ) (l : List ℕ) (paged : IsPaged p g (page ∷ l))
    (chain : Chain p.pp_link (p.pp_link page) l) (new : Absent page l) (hi : i < user_tables)
    (empty : p.frames g i ≡ 0) where
  page-ne-root : page ≢ g
  page-ne-root = paged.root.0

  fresh : (k : ℕ) → k < user_tables → p.frames g k ≢ 0 → table p.frames g k ≢ page
  fresh k h used e = (paged.tables k h used).1.0 (sym e)

  made-entry : (v : ℕ) → v < vpages → entry (made p g i page).frames g v ≡ entry p.frames g v
  unfolding made put_table alloc_page
  made-entry v h = entry-put_table p.frames g i page v paged.tree hi empty page-ne-root fresh h

  made-dir :
      (k : ℕ) → (made p g i page).frames g k ≡ (if i == k then page * 4096 + 7 else p.frames g k)
  unfolding made put_table alloc_page write_word zero_frame
  made-dir k = ground (arith, page-ne-root)

  made-tables :
      (k : ℕ)
      → k < user_tables
      → (made p g i page).frames g k ≢ 0
      → (table (made p g i page).frames g k < p.npages)
        × Absent (table (made p g i page).frames g k) l
  made-tables k hk used = elim (Bool-cases (i == k)) [
    | inl same ↦
        let e : table (made p g i page).frames g k ≡ page = ground (arith, made-dir k) in
        rw e (paged.free.0.0, new)
    | inr other ↦
        let e : (made p g i page).frames g k ≡ p.frames g k = rw (made-dir k, other) refl in
        let old = paged.tables k hk (λ z. used (e ∙ z)) in rw e (old.0, old.1.1)
  ]

  -- A data page is neither the new table nor any other.
  made-IsData : (x : ℕ) → IsData p g (page ∷ l) x → IsData (made p g i page) g l x
  unfolding made put_table alloc_page
  made-IsData x d = record {
    inside = d.inside;
    not_free = d.not_free.1;
    not_root = d.not_root;
    not_table = λ k hk used. ground (arith, made-dir k, d.not_table k hk, d.not_free.0);
  }

  made-IsPaged : IsPaged (made p g i page) g l
  unfolding made put_table alloc_page
  made-IsPaged = record {
    chain =
        Chain-cong p.pp_link (update p.pp_link page none) (p.pp_link page) l
          (All-map (λ y. y ≢ page) _ l (λ y ne. ground (arith, ne)) new) chain;
    free =
        All-map2 (λ y. y ≢ page) _ _ l (λ y ne old. (old.0, ground (arith, ne, old.1))) new
          paged.free.1;
    ends = λ x absent. elim (Bool-cases (page == x)) [
      | inl same ↦ rw same refl
      | inr other ↦ rw other (paged.ends x (ground arith, absent))
    ];
    root = paged.root.1;
    tree = IsTree-put_table p.frames g i page paged.tree page-ne-root fresh;
    tables = made-tables;
    pages = λ v hv used.
        let e = made-entry v hv in
        subst (λ w. IsData (made p g i page) g l (pgnum w)) (sym e)
          (made-IsData (pgnum (entry p.frames g v)) (paged.pages v hv (λ z. used (e ∙ z))));
    counted = λ x.
        let same = mappings_cong p.frames (made p g i page).frames g x made-entry in
        ground (arith, same, paged.counted x, paged.small x, paged.free.0.1);
    small = λ x. ground (arith, paged.small x);
    physical = paged.physical;
  }

-- How `with_table` leaves the address space: as it was, and with the table, if there was a page.
pub record Tabled (p : Pages) (g i : ℕ) (l : List ℕ) (p' : Pages) (l' : List ℕ) : Type 0 where
  pub paged : IsPaged p' g l'
  pub same : (v : ℕ) → v < vpages → entry p'.frames g v ≡ entry p.frames g v
  pub npages : p'.npages ≡ p.npages
  pub there : (p'.frames g i ≢ 0) ⊎ ((l ≡ []) × (p' ≡ p) × (p.frames g i ≡ 0))
  pub data_page : (x : ℕ) → IsData p g l x → IsData p' g l' x
  pub refs : (x : ℕ) → p.pp_ref x ≤ p'.pp_ref x
  pub contents : (x k : ℕ) → IsData p g l x → p'.frames x k ≡ p.frames x k
  pub refs_data : (x : ℕ) → Absent x l → p'.pp_ref x ≡ p.pp_ref x

unchanged-Tabled :
    (p : Pages) (g i : ℕ) (l : List ℕ)
    → IsPaged p g l
    → (p.frames g i ≢ 0) ⊎ ((l ≡ []) × (p ≡ p) × (p.frames g i ≡ 0))
    → Tabled p g i l p l
unchanged-Tabled p g i l paged there = record {
  paged = paged;
  same = λ v h. refl;
  npages = refl;
  there = there;
  data_page = λ x d. d;
  refs = λ x. omega arith;
  contents = λ x k d. refl;
  refs_data = λ x h. refl;
}

made-Tabled :
    (p : Pages) (g i page : ℕ) (l : List ℕ)
    → IsPaged p g (page ∷ l)
    → Chain p.pp_link (p.pp_link page) l
    → Absent page l
    → i < user_tables
    → p.frames g i ≡ 0
    → Tabled p g i (page ∷ l) (made p g i page) l
unfolding made put_table alloc_page write_word zero_frame
made-Tabled p g i page l paged chain new hi empty = record {
  paged = made-IsPaged p g i page l paged chain new hi empty;
  same = made-entry p g i page l paged chain new hi empty;
  npages = refl;
  there = inl (ground (arith, made-dir p g i page l paged chain new hi empty i));
  data_page = made-IsData p g i page l paged chain new hi empty;
  refs = λ x. ground (arith, paged.small x, paged.free.0.1);
  contents = λ x k d. ground (arith, d.not_root, d.not_free.0);
  refs_data = λ x h. ground (arith, h.0);
}

put_table-Tabled :
    (p : Pages) (g i : ℕ) (l : List ℕ) (o : Option ℕ)
    → Chain p.pp_link o l
    → IsPaged p g l
    → i < user_tables
    → p.frames g i ≡ 0
    → (l' : List ℕ) × Tabled p g i l (put_table p g i (alloc_page true p o)) l'
unfolding made put_table alloc_page
put_table-Tabled p g i [] none c paged hi empty =
    ([], unchanged-Tabled p g i [] paged (inr (refl, refl, empty)))
put_table-Tabled p g i (x ∷ l) none c paged hi empty = absurd c
put_table-Tabled p g i [] (some page) c paged hi empty = absurd c
put_table-Tabled p g i (x ∷ l) (some page) (e, c, new) paged hi empty = (
  l,
  subst (λ (y : ℕ). Tabled p g i (x ∷ l) (put_table p g i (alloc_page true p (some y))) l) (sym e)
      (made-Tabled p g i x l paged c new hi empty),
)

pub with_table-Tabled :
    (p : Pages) (g i : ℕ) (l : List ℕ)
    → IsPaged p g l
    → i < user_tables
    → (l' : List ℕ) × Tabled p g i l (with_table p g i true) l'
unfolding with_table
with_table-Tabled p g i l paged hi = elim (Bool-cases (p.frames g i == 0)) [
  | inr there ↦ (
    l,
    rw there
        (unchanged-Tabled p g i l paged (inl (λ e. cc ((==_iff (p.frames g i) 0).1 e, there)))),
  )
  | inl missing ↦ rw missing (
      put_table-Tabled p g i l p.page_free_list paged.chain paged hi
        ((==_iff (p.frames g i) 0).0 missing))
]

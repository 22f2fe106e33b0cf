-- ===== src/Kern/Boot/Free.antt =====
-- What `page_init` leaves: the free list, and an empty address space in order.
use mathlib.Core.Path.{subst}
use sisop_mendez.Base.{
  ==_iff, All, All-map, Bool-cases, List, Option, [], ap, arith, false, if◌then◌else◌, inl, inr,
  ltb, none, refl, some, suc, true, zero, ℕ, ◌*◌, ◌+◌, ◌/◌, ◌<◌, ◌==◌, ◌^◌, ◌∷◌, ◌≡◌, ◌≢◌, ◌≤◌, ◌⊎◌,
}
use sisop_mendez.Kern.Chains.{Chain, Chain-cong}
use sisop_mendez.Kern.Destroy.Frees.{freed}
use sisop_mendez.Kern.Envs.FreeList.{links}
use sisop_mendez.Kern.Pages.{Pages, init_page, init_pages, is_reserved, page_init, update}
use sisop_mendez.Kern.Paging.Space.{entry, entry-blank, mappings_none, user_tables, vpages}
use sisop_mendez.Kern.Paging.Steps.{Absent, IsPaged}

-- The pages that must not be given away, by the physical address at which they start: the first
-- page, the one for the start of the other CPUs, the hole of devices from 640 KB to 1 MB, and what the
-- kernel takes from 1 MB up to `nextfree`.
abbrev pub IsKept : ℕ → ℕ → Type 0
IsKept nextfree x =
    (x * 4096 ≡ 0)
    ⊎ (x * 4096 ≡ 0x7000)
    ⊎ ((640 * 1024 ≤ x * 4096) × (x * 4096 < 1024 * 1024))
    ⊎ ((1024 * 1024 ≤ x * 4096) × ((x + 1) * 4096 ≤ nextfree))

IsKept-reserved : (nextfree x : ℕ) → IsKept nextfree x → is_reserved nextfree x ≡ true
unfolding is_reserved
IsKept-reserved nextfree x k = ground arith

reserved-IsKept : (nextfree x : ℕ) → is_reserved nextfree x ≡ true → IsKept nextfree x
unfolding is_reserved
reserved-IsKept nextfree x h = elim (Bool-cases (x == 0)) [
  | inl e ↦ inl (ground arith)
  | inr n ↦ elim (Bool-cases (x == 7)) [
    | inl e ↦ inr (inl (ground arith))
    | inr n' ↦ elim (Bool-cases (ltb x 256)) [
      | inl e ↦ inr (inr (inl (ground arith)))
      | inr n'' ↦ inr (inr (inr (ground arith)))
    ]
  ]
]

-- The free list of the first `n` pages, the last page first.
unfoldable pub unreserved : ℕ → ℕ → List ℕ
unreserved nextfree zero = []
unreserved nextfree (suc n) =
    let rest = unreserved nextfree n in if is_reserved nextfree n then rest else n ∷ rest

-- The free list `l` holds the pages below `n` that are not reserved.
pub record Freed (nextfree n : ℕ) (l : List ℕ) (p : Pages) : Type 0 where
  pub chain : Chain p.pp_link p.page_free_list l
  pub below : All (λ x. (x < n) × (is_reserved nextfree x ≡ false)) l
  pub ends : (x : ℕ) → Absent x l → p.pp_link x ≡ none
  pub refs : (x : ℕ) → p.pp_ref x ≡ 0

module _ (nextfree n : ℕ) (l : List ℕ) (q : Pages) (old : Freed nextfree n l q) where
  apart : Absent n l
  apart = All-map _ _ l (λ y b. omega (arith, b.0)) old.below

  below_next : All (λ x. (x < suc n) × (is_reserved nextfree x ≡ false)) l
  below_next = All-map _ _ l (λ y b. (omega (arith, b.0), b.1)) old.below

  kept-Chain :
      (links : ℕ → Option ℕ)
      → ((y : ℕ) → y ≢ n → links y ≡ q.pp_link y)
      → Chain links q.page_free_list l
  kept-Chain links same =
      Chain-cong q.pp_link links q.page_free_list l (All-map _ _ l same apart) old.chain

  kept-Freed : Freed nextfree (suc n) l (record q { pp_link = update q.pp_link n none })
  kept-Freed = record {
    chain = kept-Chain (update q.pp_link n none) (λ y ne. ground (arith, ne));
    below = below_next;
    ends = λ x absent. ground (arith, old.ends x absent);
    refs = old.refs;
  }

  put-Freed :
      is_reserved nextfree n ≡ false
      → Freed nextfree (suc n) (n ∷ l) (record q {
        pp_link = update (update q.pp_link n none) n q.page_free_list;
        pp_ref = update q.pp_ref n 0;
        page_free_list = some n;
      })
  put-Freed usable = record {
    chain = (
      refl,
      rw ((==_iff n n).1 refl) (
          kept-Chain (update (update q.pp_link n none) n q.page_free_list)
            (λ y ne. ground (arith, ne))),
      apart,
    );
    below = ((omega arith, usable), below_next);
    ends = λ x absent. ground (arith, absent.0, old.ends x absent.1);
    refs = λ x. ground (arith, old.refs x);
  }

init_pages-Freed :
    (nextfree n : ℕ) (p : Pages)
    → p.page_free_list ≡ none
    → ((x : ℕ) → p.pp_link x ≡ none)
    → ((x : ℕ) → p.pp_ref x ≡ 0)
    → Freed nextfree n (unreserved nextfree n) (init_pages nextfree n p)
unfolding init_pages unreserved init_page
init_pages-Freed nextfree zero p empty no_links refs = record {
  chain = rw empty tt;
  below = tt;
  ends = λ x h. no_links x;
  refs = refs;
}
init_pages-Freed nextfree (suc n) p empty no_links refs =
    let q : Pages = init_pages nextfree n p in
    let l : List ℕ = unreserved nextfree n in
    let old : Freed nextfree n l q = init_pages-Freed nextfree n p empty no_links refs in
    elim (Bool-cases (is_reserved nextfree n)) [
      | inl kept ↦ rw kept (kept-Freed nextfree n l q old)
      | inr freed ↦ rw freed (put-Freed nextfree n l q old freed)
    ]

-- The pages and the page tables do not change in `page_init`.
init_pages-frames :
    (nextfree n : ℕ) (p : Pages)
    → ((init_pages nextfree n p).frames ≡ p.frames) × ((init_pages nextfree n p).npages ≡ p.npages)
unfolding init_pages init_page
init_pages-frames nextfree zero p = (refl, refl)
init_pages-frames nextfree (suc n) p =
    let rest = init_pages-frames nextfree n p in
    elim (Bool-cases (is_reserved nextfree n)) [
      | inl kept ↦ rw kept rest
      | inr freed ↦ rw freed rest
    ]

unreserved_all :
    (nextfree n x : ℕ) → x < n → Absent x (unreserved nextfree n) → is_reserved nextfree x ≡ true
unfolding unreserved
unreserved_all nextfree zero x h absent = absurd (omega arith)
unreserved_all nextfree (suc n) x h absent = elim (Bool-cases (is_reserved nextfree n)) [
  | inl kept ↦ elim (Bool-cases (x == n)) [
    | inl last ↦ rw ((==_iff x n).0 last) kept
    | inr other ↦ unreserved_all nextfree n x (ground arith) (
        subst (λ b. Absent x (if b then unreserved nextfree n else n ∷ unreserved nextfree n)) kept
          absent)
  ]
  | inr usable ↦
      let absent' : Absent x (n ∷ unreserved nextfree n) =
        subst (λ b. Absent x (if b then unreserved nextfree n else n ∷ unreserved nextfree n))
          usable absent in
      unreserved_all nextfree n x (omega (arith, h, absent'.0)) absent'.1
]

-- From an array `pages` of zeros with at most 2^20 pages, `page_init` makes the free list of
-- just the pages that are none of these: page 0, the page at the physical address 0x7000, the
-- pages from 640 KB up to 1 MB, and those from 1 MB on that end at `nextfree` or below. A page
-- that is one of these and has no entries below UTOP is then the directory of page tables in
-- order.
pub page_init-IsPaged :
    (nextfree g : ℕ) (p : Pages)
    → p.npages ≤ 2 ^ 20
    → p.page_free_list ≡ none
    → ((x : ℕ) → p.pp_link x ≡ none)
    → ((x : ℕ) → p.pp_ref x ≡ 0)
    → IsKept nextfree g
    → ((i : ℕ) → i < user_tables → p.frames g i ≡ 0)
    → (l : List ℕ) × IsPaged (page_init nextfree p) g l
      × All (λ x. (x < p.npages) × ¬ IsKept nextfree x) l
      × ((x : ℕ) → x < p.npages → Absent x l → IsKept nextfree x)
unfolding page_init
page_init-IsPaged nextfree g p physical empty no_links refs kept blank =
    let reserved = IsKept-reserved nextfree g kept in
    let q : Pages = init_pages nextfree p.npages p in
    let l : List ℕ = unreserved nextfree p.npages in
    let done : Freed nextfree p.npages l q =
      init_pages-Freed nextfree p.npages p empty no_links refs in
    let (frames, size) = init_pages-frames nextfree p.npages p in
    let blank' : (i : ℕ) → i < user_tables → q.frames g i ≡ 0 = λ i h. rw frames (blank i h) in
    let none' : (v : ℕ) → v < vpages → entry q.frames g v ≡ 0 =
      λ v h. entry-blank q.frames g v (blank' (v / 1024) (omega arith)) in
    (
      l,
      record {
        chain = done.chain;
        free = All-map _ _ l (λ y b. (rw size b.0, done.refs y)) done.below;
        ends = done.ends;
        root = All-map _ _ l (λ y b e. cc (ap (is_reserved nextfree) e, reserved, b.1)) done.below;
        tree = record {
          not_root = λ i h used. absurd (used (blank' i h));
          apart = λ i j h h' used. absurd (used (blank' i h));
        };
        tables = λ i h used. absurd (used (blank' i h));
        pages = λ v h used. absurd (used (none' v h));
        counted = λ x. omega (arith, mappings_none q.frames g x none');
        small = λ x. ground (arith, done.refs x);
        physical = rw size physical;
      },
      All-map _ _ l (λ y b. (b.0, λ k. cc (IsKept-reserved nextfree y k, b.1))) done.below,
      λ x h absent. reserved-IsKept nextfree x (unreserved_all nextfree p.npages x h absent),
    )

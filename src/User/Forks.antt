-- ===== src/User/Forks.antt =====
-- The calls of `fork` when every system call succeeds.
use mathlib.Core.Path.{subst}
use sisop_mendez.Base.{
  All, List, Nat-cases, [], arith, false, inl, inr, refl, suc, sym, true, zero, ℕ, ◌*◌, ◌++◌, ◌<◌,
  ◌||◌, ◌∷◌, ◌≡◌,
}
use sisop_mendez.User.{
  Call, Trace, alloc_call, copy_page_of, copy_pages, exception_page, followed_by, fork, has, make,
  pte_cow, pte_w, runnable_call, upcall_call, user_pages,
}
use sisop_mendez.User.Copies.{
  All-append, Among, Among-left, Among-right, IsGuarded, IsShared, all_made,
  copy_page_of-PageCopied, to_child, to_parent,
}

module _ (uvpd uvpt : ℕ → ℕ) (envid : ℕ) where
  -- The calls for the first `n` pages.
  record PagesCopied (n : ℕ) (t : Trace) : Type 0 where
    all_calm : t.panicked ≡ false
    all_guarded : All IsGuarded t.calls
    children :
        (pn : ℕ)
        → pn < n
        → IsShared uvpd uvpt envid pn
        → Among (to_child uvpd uvpt envid pn) t.calls
    parents :
        (pn : ℕ)
        → pn < n
        → IsShared uvpd uvpt envid pn
        → (has (uvpt pn) pte_w || has (uvpt pn) pte_cow) ≡ true
        → Among (to_parent uvpd uvpt envid pn) t.calls

  copy_pages-PagesCopied : (n : ℕ) → PagesCopied n (copy_pages all_made uvpd uvpt envid n)
  unfolding copy_pages followed_by
  copy_pages-PagesCopied zero = record {
    all_calm = refl;
    all_guarded = tt;
    children = λ pn lt s. absurd (omega arith);
    parents = λ pn lt s e. absurd (omega arith);
  }
  copy_pages-PagesCopied (suc n) =
      let before = copy_pages-PagesCopied n in
      let last = copy_page_of-PageCopied uvpd uvpt envid n in
      let xs = (copy_pages all_made uvpd uvpt envid n).calls in
      let ys = (copy_page_of all_made uvpd uvpt envid n).calls in
      rw (copy_pages, before.all_calm)
        (record {
          all_calm = last.calm;
          all_guarded = All-append IsGuarded xs ys before.all_guarded last.guarded;
          children = λ pn lt s. elim (Nat-cases pn n) [
            | inl less ↦ Among-left (to_child uvpd uvpt envid pn) xs ys (before.children pn less s)
            | inr ge ↦
                (let at : pn ≡ n = omega arith in
                  Among-right (to_child uvpd uvpt envid pn) xs ys
                    (rw at (last.child (subst (IsShared uvpd uvpt envid) at s))))
          ];
          parents = λ pn lt s e. elim (Nat-cases pn n) [
            | inl less ↦
                Among-left (to_parent uvpd uvpt envid pn) xs ys (before.parents pn less s e)
            | inr ge ↦
                (let at : pn ≡ n = omega arith in
                  Among-right (to_parent uvpd uvpt envid pn) xs ys
                    (rw at (last.parent (subst (IsShared uvpd uvpt envid) at s) (rw (sym at) e))))
          ];
        })

  -- The calls of `fork`: those on the caller's pages, and then a page for the exception stack of the
  -- child, its upcall, and its status, in this order.
  pub record CopiedSpace (t : Trace) : Type 0 where
    pub no_panic : t.panicked ≡ false
    pub copied : List Call
    pub in_order :
        t.calls
        ≡ copied
          ++ (alloc_call envid (exception_page * 4096) 7
              ∷ upcall_call envid
              ∷ runnable_call envid
              ∷ [])
    pub none_writable : All IsGuarded copied
    pub each_child :
        (pn : ℕ)
        → pn < user_pages
        → IsShared uvpd uvpt envid pn
        → Among (to_child uvpd uvpt envid pn) copied
    pub each_parent :
        (pn : ℕ)
        → pn < user_pages
        → IsShared uvpd uvpt envid pn
        → (has (uvpt pn) pte_w || has (uvpt pn) pte_cow) ≡ true
        → Among (to_parent uvpd uvpt envid pn) copied

  -- If every system call succeeds, `fork` maps each page below UTOP that is present and the user's,
  -- but for the exception stack, into the child at its address, with PTE_COW if the page was
  -- writable or copy-on-write, and maps such a page with PTE_COW in the parent too; it maps no page
  -- with PTE_W, and the child gets an exception stack of its own and its upcall before it may run.
  pub fork-CopiedSpace : CopiedSpace (fork all_made uvpd uvpt envid)
  unfolding fork followed_by make
  fork-CopiedSpace =
      let loop = copy_pages-PagesCopied user_pages in
      rw (fork, loop.all_calm)
        (record {
          no_panic = refl;
          copied = (copy_pages all_made uvpd uvpt envid user_pages).calls;
          in_order = refl;
          none_writable = loop.all_guarded;
          each_child = loop.children;
          each_parent = loop.parents;
        })

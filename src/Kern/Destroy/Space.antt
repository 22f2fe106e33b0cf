-- ===== src/Kern/Destroy/Space.antt =====
-- `env_free` gives every page of an address space back.
use mathlib.Core.Path.{subst}
use sisop_mendez.Base.{
  ==_iff, All, All-map, All-map2, List, arith, none, refl, some, true, ℕ, ◌+◌, ◌/◌, ◌<◌, ◌==◌, ◌∷◌,
  ◌≡◌, ◌≢◌,
}
use sisop_mendez.Kern.Chains.{Chain, Chain-cong}
use sisop_mendez.Kern.Destroy.{free_space}
use sisop_mendez.Kern.Destroy.Frees.{closed, unmapped-mappings}
use sisop_mendez.Kern.Destroy.Rounds.{free_tables-Closed}
use sisop_mendez.Kern.Destroy.Tables.{IsOwned}
use sisop_mendez.Kern.Pages.{Pages, drop_ref, free_page, page_decref, page_free, update}
use sisop_mendez.Kern.Paging.Space.{entry-blank, mappings, mappings_none, table, user_tables}
use sisop_mendez.Kern.Paging.Steps.{Absent}

-- The free list `l'` holds the pages of the tables and the directory; each other page has lost as
-- many references as it had mappings, and is in the free list if none is left and one was there.
pub record Returned (p : Pages) (g : ℕ) (l : List ℕ) (p' : Pages) (l' : List ℕ) : Type 0 where
  pub chain : Chain p'.pp_link p'.page_free_list l'
  pub free : All (λ x. (x < p.npages) × (p'.pp_ref x ≡ 0)) l'
  pub references :
      (y : ℕ)
      → y ≢ g
      → ((k : ℕ) → k < user_tables → p.frames g k ≢ 0 → table p.frames g k ≢ y)
      → p'.pp_ref y + mappings p.frames g y ≡ p.pp_ref y
  pub tables : (k : ℕ) → k < user_tables → p.frames g k ≢ 0 → p'.pp_ref (table p.frames g k) ≡ 0
  pub directory : p'.pp_ref g ≡ 0
  pub lost : (y : ℕ) → Absent y l' → p'.pp_ref y ≡ 0 → Absent y l × (p.pp_ref y ≡ 0)

-- The last reference of a page is dropped.
last_reference : Pages → ℕ → Pages
last_reference p x = record (drop_ref x p) {
  pp_link = update p.pp_link x p.page_free_list;
  page_free_list = some x;
}

page_decref-last :
    (p : Pages) (x : ℕ)
    → p.pp_ref x ≡ 1
    → p.pp_link x ≡ none
    → page_decref x p ≡ some (last_reference p x)
unfolding last_reference page_decref page_free free_page
page_decref-last p x once link =
    let last : ((drop_ref x p).pp_ref x == 0) ≡ true = ground (arith, once) in rw (last, link) refl

last_reference-Chain :
    (p : Pages) (x : ℕ) (l : List ℕ)
    → Chain p.pp_link p.page_free_list l
    → Absent x l
    → Chain (last_reference p x).pp_link (some x) (x ∷ l)
unfolding last_reference
last_reference-Chain p x l chain new = (
  refl,
  rw ((==_iff x x).1 refl) (
      Chain-cong p.pp_link _ p.page_free_list l
        (All-map (λ y. y ≢ x) _ l (λ y ne. ground (arith, ne)) new) chain),
  new,
)

closed-mappings :
    (p' : Pages) (g y : ℕ)
    → ((k : ℕ) → k < user_tables → p'.frames g k ≡ 0)
    → mappings p'.frames g y ≡ 0
closed-mappings p' g y blank =
    mappings_none p'.frames g y (λ v h. entry-blank p'.frames g v (blank (v / 1024) (omega arith)))

-- If the directory of an address space that an environment owns has one reference, the part of
-- `env_free` on page tables never panics. It returns the pages of the directory and of the tables to
-- the free list, takes from every other page as many references as it had mappings, and loses none:
-- a page without references is in the free list, unless it had none and was not there before.
pub free_space-Returned :
    (p : Pages) (g : ℕ) (l : List ℕ)
    → IsOwned p g l
    → g < p.npages
    → p.pp_ref g ≡ 1
    → (p' : Pages) × (l' : List ℕ) × (free_space p g ≡ some p') × Returned p g l p' l'
unfolding free_space last_reference
free_space-Returned p g l owned inside once =
    let (p1, l1, done, closed) = free_tables-Closed 955 p g l owned (omega arith) in
    let paged = closed.owned.paged in
    let none1 : (y : ℕ) → mappings p1.frames g y ≡ 0 =
      λ y. closed-mappings p1 g y (λ k h. ground (arith, closed.directory k h)) in
    let none0 = unmapped-mappings p g g l owned.paged (λ d. d.not_root refl) in
    let once1 : p1.pp_ref g ≡ 1 =
      omega (arith, once, none0, none1 g, closed.references g owned.paged.tree.not_root) in
    (
      last_reference p1 g,
      g ∷ l1,
      rw done (page_decref-last p1 g once1 (paged.ends g paged.root)),
      record {
        chain = last_reference-Chain p1 g l1 paged.chain paged.root;
        free = (
          (inside, ground (arith, once1)),
          All-map2 (λ y. y ≢ g) _ _ l1
              (λ y ne old. (subst (λ n. y < n) closed.npages old.0, ground (arith, ne, old.1)))
              paged.root paged.free,
        );
        references = λ y ne other. ground (arith, ne, closed.references y other, none1 y);
        tables = λ k h used.
            ground (arith, closed.freed_tables k h h used, owned.paged.tree.not_root k h used);
        directory = ground (arith, once1);
        lost = λ y absent unused. closed.lost y absent.1 (ground (arith, absent.0, unused));
      },
    )

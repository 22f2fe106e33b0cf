-- ===== src/Kern/Paging/Steps.antt =====
-- A state of the allocator in which one address space is in order, and the steps that keep it so.
use sisop_mendez.Base.{
  All, List, ap, if◌then◌else◌, none, not, ℕ, ◌&&◌, ◌+◌, ◌<◌, ◌==◌, ◌^◌, ◌≡◌, ◌≢◌, ◌≤◌,
}
use sisop_mendez.Kern.Chains.{Chain}
use sisop_mendez.Kern.Pages.{Pages, pgnum}
use sisop_mendez.Kern.Paging.Counts.{count_cong}
use sisop_mendez.Kern.Paging.Space.{IsTree, entry, mappings, maps, table, user_tables, vpages}

abbrev pub Absent : ℕ → List ℕ → Type 0
Absent x = All (λ y. y ≢ x)

-- A page that may be mapped: neither free nor part of the page tables.
pub record IsData (p : Pages) (g : ℕ) (l : List ℕ) (x : ℕ) : Type 0 where
  pub inside : x < p.npages
  pub not_free : Absent x l
  pub not_root : x ≢ g
  pub not_table : (i : ℕ) → i < user_tables → p.frames g i ≢ 0 → table p.frames g i ≢ x

-- The free list is `l`, its pages without references; the tables and the pages mapped are pages of
-- their own, and a page has at least as many references as mappings.
pub record IsPaged (p : Pages) (g : ℕ) (l : List ℕ) : Type 0 where
  pub chain : Chain p.pp_link p.page_free_list l
  pub free : All (λ x. (x < p.npages) × (p.pp_ref x ≡ 0)) l
  pub ends : (x : ℕ) → Absent x l → p.pp_link x ≡ none
  pub root : Absent g l
  pub tree : IsTree p.frames g
  pub tables :
      (i : ℕ)
      → i < user_tables
      → p.frames g i ≢ 0
      → (table p.frames g i < p.npages) × Absent (table p.frames g i) l
  pub pages :
      (v : ℕ) → v < vpages → entry p.frames g v ≢ 0 → IsData p g l (pgnum (entry p.frames g v))
  pub counted : (x : ℕ) → mappings p.frames g x ≤ p.pp_ref x
  pub small : (x : ℕ) → p.pp_ref x < 2 ^ 16
  pub physical : p.npages ≤ 2 ^ 20

pub mappings_cong :
    (frames frames' : ℕ → ℕ → ℕ) (g x : ℕ)
    → ((v : ℕ) → v < vpages → entry frames' g v ≡ entry frames g v)
    → mappings frames' g x ≡ mappings frames g x
unfolding mappings maps
mappings_cong frames frames' g x same =
    count_cong (maps frames' g x) (maps frames g x) vpages
      (λ v h. ap (λ e. not (e == 0) && pgnum e == x) (same v h))

-- What is left when the entry of the page `v` is cleared: one entry less, and as many references
-- beyond the mappings as before. A page without references that is not in the free list was so before.
pub record Cleared (p : Pages) (g v : ℕ) (l : List ℕ) (p' : Pages) (l' : List ℕ) : Type 0 where
  pub paged : IsPaged p' g l'
  pub entries :
      (u : ℕ) → u < vpages → entry p'.frames g u ≡ (if u == v then 0 else entry p.frames g u)
  pub directory : (k : ℕ) → p'.frames g k ≡ p.frames g k
  pub npages : p'.npages ≡ p.npages
  pub slack : (y : ℕ) → p'.pp_ref y + mappings p.frames g y ≡ p.pp_ref y + mappings p'.frames g y
  pub contents : (x k : ℕ) → IsData p g l x → p'.frames x k ≡ p.frames x k
  pub lost : (y : ℕ) → Absent y l' → p'.pp_ref y ≡ 0 → Absent y l × (p.pp_ref y ≡ 0)

-- ===== src/Kern/Paging/Insertion.antt =====
-- The last steps of `page_insert`: the reference counted first, and the entry written.
use mathlib.Core.Path.{subst}
use sisop_mendez.Base.{
  All, All-map, All-map2, Bool-cases, List, ap, arith, if◌then◌else◌, inl, inr, refl, sym, ℕ, ◌*◌,
  ◌+◌, ◌<◌, ◌==◌, ◌^◌, ◌∙◌, ◌≡◌, ◌≢◌, ◌≤◌,
}
use sisop_mendez.Kern.Pages.{Pages, add_ref, pgnum, write_word}
use sisop_mendez.Kern.Paging.Counts.{one_if}
use sisop_mendez.Kern.Paging.Space.{
  IsTree-write, entry, entry-write, mappings, mappings-write, maps, table, user_tables, vpages,
}
use sisop_mendez.Kern.Paging.Steps.{Absent, IsData, IsPaged}

pub added-IsData :
    (p : Pages) (g pp x : ℕ) (l : List ℕ) → IsData p g l x → IsData (add_ref pp p) g l x
added-IsData p g pp x l d = record {
  inside = d.inside;
  not_free = d.not_free;
  not_root = d.not_root;
  not_table = d.not_table;
}

-- A page that may be mapped gets one reference more.
pub added-IsPaged :
    (p : Pages) (g pp : ℕ) (l : List ℕ)
    → IsPaged p g l
    → IsData p g l pp
    → p.pp_ref pp + 1 < 2 ^ 16
    → IsPaged (add_ref pp p) g l
added-IsPaged p g pp l paged d room = record {
  chain = paged.chain;
  free =
      All-map2 (λ y. y ≢ pp) _ _ l (λ y ne old. (old.0, ground (arith, ne, old.1))) d.not_free
        paged.free;
  ends = paged.ends;
  root = paged.root;
  tree = paged.tree;
  tables = paged.tables;
  pages = λ v h used. added-IsData p g pp (pgnum (entry p.frames g v)) l (paged.pages v h used);
  counted = λ x. ground (arith, paged.counted x);
  small = λ x. ground (arith, paged.small x);
  physical = paged.physical;
}

-- A page with a reference is not in the free list.
pub referenced-Absent :
    (p : Pages) (x : ℕ) (l : List ℕ)
    → All (λ y. (y < p.npages) × (p.pp_ref y ≡ 0)) l
    → 1 ≤ p.pp_ref x
    → Absent x l
referenced-Absent p x l free h =
    All-map _ _ l (λ y old e. omega (arith, h, old.1, ap p.pp_ref e)) free

-- The entry of the page `v` becomes `w`: every other entry, and the references, stay.
unfoldable pub with_entry : Pages → ℕ → ℕ → ℕ → ℕ → Pages
with_entry p g i j w = record p { frames = write_word p.frames (table p.frames g i) j w }

pub with_entry-elsewhere :
    (p : Pages) (g i j w x k : ℕ)
    → table p.frames g i ≢ x
    → (with_entry p g i j w).frames x k ≡ p.frames x k
unfolding with_entry write_word
with_entry-elsewhere p g i j w x k ne = ground (arith, ne)

module _ (p : Pages) (g i j w : ℕ) (l : List ℕ) (paged : IsPaged p g l) (hi : i < user_tables)
    (hj : j < 1024) (used : p.frames g i ≢ 0) (empty : entry p.frames g (i * 1024 + j) ≡ 0)
    (full : w ≢ 0) (d : IsData p g l (pgnum w))
    (room : mappings p.frames g (pgnum w) + 1 ≤ p.pp_ref (pgnum w)) where
  pub with_entry-entry :
      (u : ℕ)
      → u < vpages
      → entry (with_entry p g i j w).frames g u
        ≡ (if u == i * 1024 + j then w else entry p.frames g u)
  unfolding with_entry
  with_entry-entry u h = entry-write p.frames g i j w u paged.tree hi used hj h

  with_entry-dir : (k : ℕ) → (with_entry p g i j w).frames g k ≡ p.frames g k
  unfolding with_entry write_word
  with_entry-dir k = ground (arith, paged.tree.not_root i hi used)

  pub with_entry-mappings :
      (y : ℕ)
      → mappings (with_entry p g i j w).frames g y ≡ mappings p.frames g y + one_if (pgnum w == y)
  unfolding with_entry maps
  with_entry-mappings y =
      ground (arith, full, empty, mappings-write p.frames g i j w y paged.tree hi used hj)

  with_entry-IsData : (y : ℕ) → IsData p g l y → IsData (with_entry p g i j w) g l y
  unfolding with_entry
  with_entry-IsData y old = record {
    inside = old.inside;
    not_free = old.not_free;
    not_root = old.not_root;
    not_table = λ k hk there. ground (arith, with_entry-dir k, old.not_table k hk, there);
  }

  pub with_entry-IsPaged : IsPaged (with_entry p g i j w) g l
  unfolding with_entry
  with_entry-IsPaged = record {
    chain = paged.chain;
    free = paged.free;
    ends = paged.ends;
    root = paged.root;
    tree =
        IsTree-write p.frames g (table p.frames g i) j w paged.tree (paged.tree.not_root i hi used);
    tables =
        λ k hk there. rw (with_entry-dir k) (paged.tables k hk (λ z. there (with_entry-dir k ∙ z)));
    pages = λ u h there. elim (Bool-cases (u == i * 1024 + j)) [
      | inl here ↦
          let e : entry (with_entry p g i j w).frames g u ≡ w =
            rw (with_entry-entry u h, here) refl in
          subst (λ x. IsData (with_entry p g i j w) g l (pgnum x)) (sym e)
            (with_entry-IsData (pgnum w) d)
      | inr other ↦
          let e : entry (with_entry p g i j w).frames g u ≡ entry p.frames g u =
            rw (with_entry-entry u h, other) refl in
          subst (λ x. IsData (with_entry p g i j w) g l (pgnum x)) (sym e)
            (with_entry-IsData (pgnum (entry p.frames g u)) (paged.pages u h (λ z. there (e ∙ z))))
    ];
    counted = λ y. ground (arith, with_entry-mappings y, room, paged.counted y);
    small = paged.small;
    physical = paged.physical;
  }

-- ===== src/Kern/Paging/Removal.antt =====
-- `page_remove` keeps an address space in order.
use mathlib.Core.Path.{subst}
use sisop_mendez.Base.{
  All, All-map, All-map2, Bool-cases, List, arith, if◌then◌else◌, inl, inr, refl, some, sym, true,
  ℕ, ◌*◌, ◌+◌, ◌<◌, ◌==◌, ◌∙◌, ◌∷◌, ◌≡◌, ◌≢◌, ◌≤◌,
}
use sisop_mendez.Kern.Chains.{Chain, Chain-cong}
use sisop_mendez.Kern.Pages.{
  Pages, drop_ref, free_page, page_decref, page_free, pgnum, update, write_word,
}
use sisop_mendez.Kern.Paging.{clear_pte}
use sisop_mendez.Kern.Paging.Counts.{count_zero, one_if}
use sisop_mendez.Kern.Paging.Space.{
  IsTree, IsTree-write, entry, entry-write, mappings, mappings-pos, mappings-write, maps, table,
  user_tables, vpages,
}
use sisop_mendez.Kern.Paging.Steps.{Absent, Cleared, IsData, IsPaged}

-- The entry `j` of the table `i` maps the page `x`.
module _ (p : Pages) (g i j : ℕ) (l : List ℕ) (paged : IsPaged p g l) (hi : i < user_tables)
    (hj : j < 1024) (used : p.frames g i ≢ 0) (mapped : entry p.frames g (i * 1024 + j) ≢ 0) where
  unfoldable pub place : ℕ
  place = i * 1024 + j

  unfoldable pub target : ℕ
  target = pgnum (entry p.frames g place)

  cleared : ℕ → ℕ → ℕ
  cleared = write_word p.frames (table p.frames g i) j 0

  inside : place < vpages
  unfolding place
  inside = omega arith

  target-IsData : IsData p g l target
  unfolding target place
  target-IsData = paged.pages (i * 1024 + j) (omega arith) mapped

  cleared-entry :
      (u : ℕ) → u < vpages → entry cleared g u ≡ (if u == place then 0 else entry p.frames g u)
  unfolding place cleared
  cleared-entry u h = entry-write p.frames g i j 0 u paged.tree hi used hj h

  cleared-dir : (k : ℕ) → cleared g k ≡ p.frames g k
  unfolding cleared write_word
  cleared-dir k = ground (arith, paged.tree.not_root i hi used)

  maps-target : (y : ℕ) → maps p.frames g y place ≡ (target == y)
  unfolding maps target place
  maps-target y = ground (arith, mapped)

  cleared-mappings : (y : ℕ) → mappings p.frames g y ≡ mappings cleared g y + one_if (target == y)
  unfolding cleared place
  cleared-mappings y =
      ground (arith, mappings-write p.frames g i j 0 y paged.tree hi used hj, maps-target y)

  target-ref : 1 ≤ p.pp_ref target
  target-ref =
      let hit : maps p.frames g target place ≡ true = ground (arith, maps-target target) in
      omega (arith, paged.counted target, mappings-pos p.frames g target place inside hit)

  cleared-contents : (x k : ℕ) → IsData p g l x → cleared x k ≡ p.frames x k
  unfolding cleared write_word
  cleared-contents x k d = ground (arith, d.not_table i hi used)

  -- No other entry maps the page, if it had one reference.
  last_mapping :
      p.pp_ref target ≡ 1
      → (u : ℕ) → u < vpages
      → entry cleared g u ≢ 0
      → pgnum (entry cleared g u) ≢ target
  unfolding mappings maps
  last_mapping once u h there same =
      let none' : mappings cleared g target ≡ 0 =
        ground (arith, cleared-mappings target, paged.counted target) in
      let miss = count_zero (maps cleared g target) vpages u none' h in ground (arith, miss)

  -- The state with one reference less, and with the page in the free list if it was the last.
  dropped : Pages
  dropped = record (drop_ref target p) { frames = cleared }

  freed : Pages
  freed = record dropped {
    pp_link = update p.pp_link target p.page_free_list;
    page_free_list = some target;
  }

  dropped-ref : (y : ℕ) → dropped.pp_ref y + one_if (target == y) ≡ p.pp_ref y
  unfolding dropped
  dropped-ref y = ground (arith, target-ref, paged.small target)

  dropped-counted : (y : ℕ) → mappings cleared g y ≤ dropped.pp_ref y
  dropped-counted y = ground (arith, dropped-ref y, cleared-mappings y, paged.counted y)

  dropped-slack :
      (y : ℕ) → dropped.pp_ref y + mappings p.frames g y ≡ p.pp_ref y + mappings cleared g y
  dropped-slack y = omega (arith, dropped-ref y, cleared-mappings y)

  cleared-tables :
      (l' : List ℕ)
      → ((k : ℕ) → k < user_tables → p.frames g k ≢ 0 → Absent (table p.frames g k) l')
      → (k : ℕ) → k < user_tables
      → cleared g k ≢ 0
      → (table cleared g k < p.npages) × Absent (table cleared g k) l'
  cleared-tables l' absent k hk there = rw (cleared-dir k) (
      let there' : p.frames g k ≢ 0 = λ z. there (cleared-dir k ∙ z) in
      ((paged.tables k hk there').0, absent k hk there'))

  cleared-IsData :
      (y : ℕ) (l' : List ℕ) (p' : Pages)
      → p'.frames ≡ cleared
      → p'.npages ≡ p.npages
      → IsData p g l y
      → Absent y l'
      → IsData p' g l' y
  cleared-IsData y l' p' e n d absent = record {
    inside = rw n d.inside;
    not_free = absent;
    not_root = d.not_root;
    not_table = λ k hk there.
        rw (e, cleared-dir k) (d.not_table k hk (λ z. there (rw (e, cleared-dir k) z)));
  }

  entry-there :
      (u : ℕ) → u < vpages → entry cleared g u ≢ 0 → entry cleared g u ≡ entry p.frames g u
  entry-there u h there = ground (arith, cleared-entry u h, there)

  cleared-IsTree : IsTree cleared g
  unfolding cleared
  cleared-IsTree =
      IsTree-write p.frames g (table p.frames g i) j 0 paged.tree (paged.tree.not_root i hi used)

  cleared-pages :
      (l' : List ℕ) (p' : Pages)
      → p'.frames ≡ cleared
      → p'.npages ≡ p.npages
      → ((u : ℕ) → u < vpages → entry cleared g u ≢ 0 → Absent (pgnum (entry cleared g u)) l')
      → (u : ℕ) → u < vpages
      → entry cleared g u ≢ 0
      → IsData p' g l' (pgnum (entry cleared g u))
  cleared-pages l' p' e n absent u h there =
      let same = entry-there u h there in
      cleared-IsData (pgnum (entry cleared g u)) l' p' e n
        (subst (λ w. IsData p g l (pgnum w)) (sym same) (paged.pages u h (λ z. there (same ∙ z))))
        (absent u h there)

  -- The page that an entry still maps is not free.
  still-Absent : (u : ℕ) → u < vpages → entry cleared g u ≢ 0 → Absent (pgnum (entry cleared g u)) l
  still-Absent u h there =
      let same = entry-there u h there in
      subst (λ w. Absent (pgnum w) l) (sym same) (paged.pages u h (λ z. there (same ∙ z))).not_free

  dropped-free : All (λ x. (x < p.npages) × (dropped.pp_ref x ≡ 0)) l
  unfolding dropped
  dropped-free =
      All-map2 (λ y. y ≢ target) _ _ l (λ y ne old. (old.0, ground (arith, ne, old.1)))
        target-IsData.not_free paged.free

  dropped-IsPaged : IsPaged dropped g l
  unfolding dropped
  dropped-IsPaged = record {
    chain = paged.chain;
    free = dropped-free;
    ends = paged.ends;
    root = paged.root;
    tree = cleared-IsTree;
    tables = cleared-tables l (λ k hk there. (paged.tables k hk there).1);
    pages = cleared-pages l dropped refl refl still-Absent;
    counted = dropped-counted;
    small = λ y. ground (arith, paged.small y);
    physical = paged.physical;
  }

  freed-Chain : Chain freed.pp_link p.page_free_list l
  unfolding freed dropped
  freed-Chain =
      Chain-cong p.pp_link _ p.page_free_list l
        (All-map (λ y. y ≢ target) _ l (λ y ne. ground (arith, ne)) target-IsData.not_free)
        paged.chain

  freed-head : freed.pp_link target ≡ p.page_free_list
  unfolding freed dropped
  freed-head = ground arith

  freed-IsPaged : p.pp_ref target ≡ 1 → IsPaged freed g (target ∷ l)
  unfolding freed dropped
  freed-IsPaged once = record {
    chain = (
      refl,
      subst (λ o. Chain freed.pp_link o l) (sym freed-head) freed-Chain,
      target-IsData.not_free,
    );
    free = ((target-IsData.inside, ground (arith, once)), dropped-free);
    ends = λ x absent. ground (arith, absent.0, paged.ends x absent.1);
    root = (target-IsData.not_root, paged.root);
    tree = cleared-IsTree;
    tables = cleared-tables (target ∷ l) (λ k hk there.
        (λ e. target-IsData.not_table k hk there (sym e), (paged.tables k hk there).1));
    pages =
        cleared-pages (target ∷ l) freed refl refl
          (λ u h there. (λ e. last_mapping once u h there (sym e), still-Absent u h there));
    counted = dropped-counted;
    small = λ y. ground (arith, paged.small y);
    physical = paged.physical;
  }

  pub removed :
      (p' : Pages) × (l' : List ℕ) × (clear_pte (table p.frames g i) j (page_decref target p)
        ≡ some p')
      × Cleared p g place l p' l'
  unfolding clear_pte page_decref page_free free_page freed dropped cleared
  removed = elim (Bool-cases ((drop_ref target p).pp_ref target == 0)) [
    | inl last ↦ (
      freed,
      target ∷ l,
      rw (last, paged.ends target target-IsData.not_free) refl,
      record {
        paged = freed-IsPaged (ground (arith, last, target-ref, paged.small target));
        entries = cleared-entry;
        directory = cleared-dir;
        npages = refl;
        slack = dropped-slack;
        contents = cleared-contents;
        lost = λ y absent unused. (absent.1, ground (arith, absent.0, unused));
      },
    )
    | inr more ↦ (
      dropped,
      l,
      rw more refl,
      record {
        paged = dropped-IsPaged;
        entries = cleared-entry;
        directory = cleared-dir;
        npages = refl;
        slack = dropped-slack;
        contents = cleared-contents;
        lost = λ y absent unused. (absent, ground (arith, more, unused, dropped-ref y));
      },
    )
  ]

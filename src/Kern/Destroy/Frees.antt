-- ===== src/Kern/Destroy/Frees.antt =====
-- `env_free` gives every page of the address space back.
use mathlib.Core.Path.{subst}
use sisop_mendez.Base.{
  ==_iff, All-map, All-map2, Bool-cases, List, ap, arith, if◌then◌else◌, inl, inr, none, refl, some,
  sym, true, ℕ, ◌+◌, ◌/◌, ◌<◌, ◌==◌, ◌∙◌, ◌∷◌, ◌≡◌, ◌≢◌,
}
use sisop_mendez.Kern.Chains.{Chain-cong}
use sisop_mendez.Kern.Pages.{
  Pages, drop_ref, free_page, page_decref, page_free, pgnum, update, write_word,
}
use sisop_mendez.Kern.Paging.Counts.{count_none, one_if}
use sisop_mendez.Kern.Paging.Space.{entry, mappings, maps, table, user_tables, vpages}
use sisop_mendez.Kern.Paging.Steps.{Absent, IsData, IsPaged, mappings_cong}

-- A page that no entry leads to has no mappings.
pub unmapped-mappings :
    (p : Pages) (g x : ℕ) (l : List ℕ)
    → IsPaged p g l
    → (IsData p g l x → ⊥)
    → mappings p.frames g x ≡ 0
unfolding mappings maps
unmapped-mappings p g x l paged none' = count_none (maps p.frames g x) vpages (λ v h.
    elim (Bool-cases (maps p.frames g x v)) [
      | inr miss ↦ miss
      | inl hit ↦
          let there : entry p.frames g v ≢ 0 = ground (arith, hit) in
          let same : pgnum (entry p.frames g v) ≡ x = ground (arith, hit) in
          absurd (none' (subst (IsData p g l) same (paged.pages v h there)))
    ])

-- One table freed: its entry of the directory is 0, its page is free, and the entries of the others
-- are as before.
module _ (p : Pages) (g i : ℕ) (l : List ℕ) (paged : IsPaged p g l) (hi : i < user_tables)
    (used : p.frames g i ≢ 0) (empty : (u : ℕ) → u < vpages → u / 1024 ≡ i → entry p.frames g u ≡ 0)
    (once : p.pp_ref (table p.frames g i) ≡ 1) where
  unfoldable pub its_table : ℕ
  its_table = table p.frames g i

  unfoldable pub closed : Pages
  closed = record p { frames = write_word p.frames g i 0 }

  pub closed-entry : (u : ℕ) → u < vpages → entry closed.frames g u ≡ entry p.frames g u
  unfolding closed write_word entry
  closed-entry u h =
      let root = paged.tree.not_root (u / 1024) (omega arith) in ground (arith, root, empty u h)

  pub closed-dir : (k : ℕ) → closed.frames g k ≡ (if i == k then 0 else p.frames g k)
  unfolding closed write_word
  closed-dir k = ground arith

  unfoldable pub freed : Pages
  freed = record (drop_ref its_table closed) {
    pp_link = update p.pp_link its_table p.page_free_list;
    page_free_list = some its_table;
  }

  not_data : IsData p g l its_table → ⊥
  unfolding its_table
  not_data d = d.not_table i hi used refl

  no_mapping : mappings p.frames g its_table ≡ 0
  no_mapping = unmapped-mappings p g its_table l paged not_data

  pub freed-mappings : (y : ℕ) → mappings freed.frames g y ≡ mappings p.frames g y
  unfolding freed
  freed-mappings y = mappings_cong p.frames closed.frames g y closed-entry

  pub freed-ref : (y : ℕ) → freed.pp_ref y + one_if (its_table == y) ≡ p.pp_ref y
  unfolding freed closed its_table
  freed-ref y = ground (arith, once)

  new : Absent its_table l
  unfolding its_table
  new = (paged.tables i hi used).1

  -- The tables that are left.
  pub freed-dir :
      (k : ℕ)
      → k < user_tables
      → freed.frames g k ≢ 0
      → (freed.frames g k ≡ p.frames g k) × (p.frames g k ≢ 0) × (table p.frames g k ≢ its_table)
  unfolding freed its_table
  freed-dir k hk there =
      let ne : k ≢ i = ground (arith, closed-dir k, there) in
      let kept : closed.frames g k ≡ p.frames g k = ground (arith, closed-dir k, ne) in
      let old : p.frames g k ≢ 0 = λ z. there (kept ∙ z) in
      (kept, old, λ e. ne (paged.tree.apart k i hk hi old used e))

  freed-IsData : (x : ℕ) → IsData p g l x → IsData freed g (its_table ∷ l) x
  unfolding freed closed
  freed-IsData x d = record {
    inside = d.inside;
    not_free = (λ e. not_data (subst (IsData p g l) (sym e) d), d.not_free);
    not_root = d.not_root;
    not_table = λ k hk there e.
        let (kept, old, other) = freed-dir k hk there in
        d.not_table k hk old (ap pgnum (sym kept) ∙ e);
  }

  freed-tables :
      (k : ℕ)
      → k < user_tables
      → freed.frames g k ≢ 0
      → (table freed.frames g k < freed.npages) × Absent (table freed.frames g k) (its_table ∷ l)
  unfolding freed closed
  freed-tables k hk there =
      let (kept, old, other) = freed-dir k hk there in
      let (inside, absent) = paged.tables k hk old in
      subst (λ w. (pgnum w < p.npages) × Absent (pgnum w) (its_table ∷ l)) (sym kept)
        (inside, ((λ e. other (sym e)), absent))

  unused : freed.pp_ref its_table ≡ 0
  unfolding freed closed its_table
  unused = ground (arith, once)

  pub freed-IsPaged : IsPaged freed g (its_table ∷ l)
  unfolding freed closed its_table
  freed-IsPaged = record {
    chain = (
      refl,
      rw ((==_iff its_table its_table).1 refl) (
          Chain-cong p.pp_link _ p.page_free_list l
            (All-map (λ y. y ≢ its_table) _ l (λ y ne. ground (arith, ne)) new) paged.chain),
      new,
    );
    free = (
      ((paged.tables i hi used).0, unused),
      All-map2 (λ y. y ≢ its_table) _ _ l (λ y ne old. (old.0, omega (arith, freed-ref y, old.1)))
          new paged.free,
    );
    ends = λ x absent. ground (arith, absent.0, paged.ends x absent.1);
    root = (paged.tree.not_root i hi used, paged.root);
    tree = record {
      not_root = λ k hk there e.
          let (kept, old, other) = freed-dir k hk there in
          paged.tree.not_root k hk old (ap pgnum (sym kept) ∙ e);
      apart = λ j k hj hk there there' e.
          let (kept, old, other) = freed-dir j hj there in
          let (kept', old', other') = freed-dir k hk there' in
          paged.tree.apart j k hj hk old old' (ap pgnum (sym kept) ∙ e ∙ ap pgnum kept');
    };
    tables = freed-tables;
    pages = λ u h there.
        let e = closed-entry u h in
        subst (λ w. IsData freed g (its_table ∷ l) (pgnum w)) (sym e)
          (freed-IsData (pgnum (entry p.frames g u)) (paged.pages u h (λ z. there (e ∙ z))));
    counted = λ y. ground (arith, freed-mappings y, freed-ref y, paged.counted y, no_mapping);
    small = λ y. omega (arith, freed-ref y, paged.small y);
    physical = paged.physical;
  }

  pub freed-done : page_decref its_table closed ≡ some freed
  unfolding freed closed its_table page_decref page_free free_page
  freed-done =
      let link : p.pp_link (table p.frames g i) ≡ none =
        paged.ends (table p.frames g i) (paged.tables i hi used).1 in
      let last : ((drop_ref (table p.frames g i) p).pp_ref (table p.frames g i) == 0) ≡ true =
        ground (arith, once) in
      rw (last, link) refl

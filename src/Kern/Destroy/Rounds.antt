-- ===== src/Kern/Destroy/Rounds.antt =====
-- The loop of `env_free` over the page directory, table by table.
use mathlib.Core.Path.{subst}
use sisop_mendez.Base.{
  ==_iff, Bool-cases, List, ap, arith, false, if◌then◌else◌, inl, inr, leb, ltb, refl, some, suc,
  sym, true, zero, ℕ, ◌+◌, ◌/◌, ◌<◌, ◌==◌, ◌∙◌, ◌∷◌, ◌≡◌, ◌≢◌, ◌≤◌,
}
use sisop_mendez.Kern.Destroy.{free_table, free_tables}
use sisop_mendez.Kern.Destroy.Frees.{
  closed, closed-dir, closed-entry, freed, freed-IsPaged, freed-dir, freed-done, freed-mappings,
  freed-ref, its_table, unmapped-mappings,
}
use sisop_mendez.Kern.Destroy.Tables.{Emptied, IsOwned, free_entries-Emptied}
use sisop_mendez.Kern.Pages.{Pages, page_decref, pgnum, write_word}
use sisop_mendez.Kern.Paging.{bit}
use sisop_mendez.Kern.Paging.Counts.{count_none, count_zero, one_if}
use sisop_mendez.Kern.Paging.Space.{entry, mappings, maps, table, user_tables, vpages}
use sisop_mendez.Kern.Paging.Steps.{Absent}

-- The references of a table do not change while its entries, or those of another, are removed.
table-once :
    (p : Pages) (g i k : ℕ) (l : List ℕ) (p' : Pages) (l' : List ℕ)
    → IsOwned p g l
    → Emptied p g i 1024 l p' l'
    → k < user_tables
    → p.frames g k ≢ 0
    → p'.pp_ref (table p.frames g k) ≡ 1
table-once p g i k l p' l' owned emptied hk used =
    let x : ℕ = table p.frames g k in
    let before = unmapped-mappings p g x l owned.paged (λ d. d.not_table k hk used refl) in
    let same = emptied.directory k in
    let after =
      unmapped-mappings p' g x l' emptied.paged
        (λ d. d.not_table k hk (λ z. used (sym same ∙ z)) (ap pgnum same)) in
    omega (arith, before, after, emptied.slack x, (owned.tables k hk used).1)

-- One round of the loop over the directory.
record Round (p : Pages) (g i : ℕ) (l : List ℕ) (p' : Pages) (l' : List ℕ) : Type 0 where
  owned : IsOwned p' g l'
  directory : (k : ℕ) → k < user_tables → p'.frames g k ≡ (if i == k then 0 else p.frames g k)
  npages : p'.npages ≡ p.npages
  references :
      (y : ℕ)
      → ((p.frames g i ≢ 0) → table p.frames g i ≢ y)
      → p'.pp_ref y + mappings p.frames g y ≡ p.pp_ref y + mappings p'.frames g y
  entries :
      (v : ℕ) → v < vpages → entry p'.frames g v ≢ 0 → entry p'.frames g v ≡ entry p.frames g v
  freed_table : p.frames g i ≢ 0 → p'.pp_ref (table p.frames g i) ≡ 0
  lost : (y : ℕ) → Absent y l' → p'.pp_ref y ≡ 0 → Absent y l × (p.pp_ref y ≡ 0)

skip-Round :
    (p : Pages) (g i : ℕ) (l : List ℕ) → IsOwned p g l → p.frames g i ≡ 0 → Round p g i l p l
skip-Round p g i l owned empty = record {
  owned = owned;
  directory = λ k hk. elim (Bool-cases (i == k)) [
    | inl here ↦ rw here (rw (sym ((==_iff i k).0 here)) empty)
    | inr other ↦ rw other refl
  ];
  npages = refl;
  references = λ y other. refl;
  entries = λ v hv there. refl;
  freed_table = λ used. absurd (used empty);
  lost = λ y absent unused. (absent, unused);
}

free-Round :
    (p : Pages) (g i : ℕ) (l : List ℕ) (p1 : Pages) (l1 : List ℕ)
    → IsOwned p g l
    → i < user_tables
    → p.frames g i ≢ 0
    → Emptied p g i 1024 l p1 l1
    → (p2 : Pages) × (l2 : List ℕ) × (page_decref
          (table p.frames g i)
          (record p1 { frames = write_word p1.frames g i 0 })
        ≡ some p2)
      × Round p g i l p2 l2
unfolding freed closed its_table
free-Round p g i l p1 l1 owned hi used emptied =
    let same = emptied.directory i in
    let used1 : p1.frames g i ≢ 0 = λ z. used (sym same ∙ z) in
    let empty : (u : ℕ) → u < vpages → u / 1024 ≡ i → entry p1.frames g u ≡ 0 =
      λ u hu at_i. ground (arith, emptied.entries u hu, at_i) in
    let once : p1.pp_ref (table p1.frames g i) ≡ 1 =
      rw same (table-once p g i i l p1 l1 owned emptied hi used) in
    let p2 : Pages = freed p1 g i l1 emptied.paged hi used1 empty once in
    let refs : (y : ℕ) → p2.pp_ref y + one_if (table p.frames g i == y) ≡ p1.pp_ref y = λ y.
      subst (λ x. p2.pp_ref y + one_if (x == y) ≡ p1.pp_ref y) (ap pgnum same)
        (freed-ref p1 g i l1 emptied.paged hi used1 empty once y) in
    let dir = freed-dir p1 g i l1 emptied.paged hi used1 empty once in
    let entries = closed-entry p1 g i l1 emptied.paged hi used1 empty once in
    let maps' = freed-mappings p1 g i l1 emptied.paged hi used1 empty once in
    (
      p2,
      table p1.frames g i ∷ l1,
      subst (λ x. page_decref x (closed p1 g i l1 emptied.paged hi used1 empty once) ≡ some p2)
          (ap pgnum same) (freed-done p1 g i l1 emptied.paged hi used1 empty once),
      record {
        owned = record {
          paged = freed-IsPaged p1 g i l1 emptied.paged hi used1 empty once;
          tables = λ k hk there.
              let (kept, old, other) = dir k hk there in
              let e : p2.frames g k ≡ p.frames g k = kept ∙ emptied.directory k in
              let used' : p.frames g k ≢ 0 = λ z. there (e ∙ z) in
              let apart : table p.frames g k ≢ table p.frames g i =
                λ z. other (ap pgnum (emptied.directory k) ∙ z ∙ ap pgnum (sym same)) in
              let one : p2.pp_ref (table p.frames g k) ≡ 1 = ground (
                arith,
                apart,
                refs (table p.frames g k),
                table-once p g i k l p1 l1 owned emptied hk used',
              ) in
              subst (λ w. (bit w 1 ≡ true) × (p2.pp_ref (pgnum w) ≡ 1)) (sym e)
                ((owned.tables k hk used').0, one);
          present = λ v hv there.
              let e : entry p2.frames g v ≡ entry p.frames g v =
                ground (arith, entries v hv, emptied.entries v hv, there) in
              rw e (owned.present v hv (λ z. there (e ∙ z)));
        };
        directory = λ k hk.
            ground (
              arith,
              emptied.directory k,
              closed-dir p1 g i l1 emptied.paged hi used1 empty once k,
            );
        npages = emptied.npages;
        references = λ y other. ground (arith, refs y, emptied.slack y, maps' y, other used);
        entries = λ v hv there. ground (arith, entries v hv, emptied.entries v hv, there);
        freed_table = λ used'.
            ground
              (arith, refs (table p.frames g i), table-once p g i i l p1 l1 owned emptied hi used);
        lost = λ y absent unused'.
            let ne : table p.frames g i ≢ y = λ e. absent.0 (ap pgnum same ∙ e) in
            emptied.lost y absent.1 (ground (arith, refs y, ne, unused'));
      },
    )

free_table-Round :
    (p : Pages) (g i : ℕ) (l : List ℕ)
    → IsOwned p g l
    → i < user_tables
    → (p' : Pages) × (l' : List ℕ) × (free_table p g i ≡ some p') × Round p g i l p' l'
unfolding free_table
free_table-Round p g i l owned hi = elim (Bool-cases (p.frames g i == 0)) [
  | inl empty ↦
      let e = (==_iff (p.frames g i) 0).0 empty in
      let clear : bit (p.frames g i) 1 ≡ false = rw e refl in
      (p, l, rw clear refl, skip-Round p g i l owned e)
  | inr there ↦
      let used : p.frames g i ≢ 0 = λ z. cc ((==_iff (p.frames g i) 0).1 z, there) in
      let (p1, l1, done, emptied) = free_entries-Emptied p g i 1024 l owned hi used (omega arith) in
      let (p2, l2, last, round) = free-Round p g i l p1 l1 owned hi used emptied in
      let inside : leb p.npages (table p.frames g i) ≡ false =
        ground (arith, (owned.paged.tables i hi used).0) in
      (p2, l2, rw ((owned.tables i hi used).0, inside, done) last, round)
]

-- The first `n` entries of the directory are closed: their tables are without references, all pages
-- that are no tables keep as many references beyond their mappings, and no page is lost.
pub record Closed (p : Pages) (g n : ℕ) (l : List ℕ) (p' : Pages) (l' : List ℕ) : Type 0 where
  pub owned : IsOwned p' g l'
  pub directory : (k : ℕ) → k < user_tables → p'.frames g k ≡ (if ltb k n then 0 else p.frames g k)
  pub npages : p'.npages ≡ p.npages
  pub references :
      (y : ℕ)
      → ((k : ℕ) → k < user_tables → p.frames g k ≢ 0 → table p.frames g k ≢ y)
      → p'.pp_ref y + mappings p.frames g y ≡ p.pp_ref y + mappings p'.frames g y
  pub freed_tables :
      (k : ℕ) → k < n → k < user_tables → p.frames g k ≢ 0 → p'.pp_ref (table p.frames g k) ≡ 0
  pub lost : (y : ℕ) → Absent y l' → p'.pp_ref y ≡ 0 → Absent y l × (p.pp_ref y ≡ 0)

-- A page without mappings gets none when entries are removed.
still_unmapped :
    (p p' : Pages) (g y : ℕ)
    → ((v : ℕ) → v < vpages → entry p'.frames g v ≢ 0 → entry p'.frames g v ≡ entry p.frames g v)
    → mappings p.frames g y ≡ 0
    → mappings p'.frames g y ≡ 0
unfolding mappings maps
still_unmapped p p' g y same none' =
    count_none (maps p'.frames g y) vpages
      (λ v h. ground (arith, same v h, count_zero (maps p.frames g y) vpages v none' h))

pub free_tables-Closed :
    (n : ℕ) (p : Pages) (g : ℕ) (l : List ℕ)
    → IsOwned p g l
    → n ≤ user_tables
    → (p' : Pages) × (l' : List ℕ) × (free_tables n p g ≡ some p') × Closed p g n l p' l'
unfolding free_tables
free_tables-Closed zero p g l owned h = (
  p,
  l,
  refl,
  record {
    owned = owned;
    directory = λ k hk. ground arith;
    npages = refl;
    references = λ y other. refl;
    freed_tables = λ k hk. absurd (omega arith);
    lost = λ y absent unused. (absent, unused);
  },
)
free_tables-Closed (suc n) p g l owned h =
    let (p1, l1, done, old) = free_tables-Closed n p g l owned (omega arith) in
    let (p2, l2, last, round) = free_table-Round p1 g n l1 old.owned (omega arith) in
    let same : p1.frames g n ≡ p.frames g n = ground (arith, old.directory n (omega arith)) in
    (
      p2,
      l2,
      rw done last,
      record {
        owned = round.owned;
        directory = λ k hk. ground (arith, old.directory k hk, round.directory k hk);
        npages = round.npages ∙ old.npages;
        references = λ y other.
            let apart : (p1.frames g n ≢ 0) → table p1.frames g n ≢ y =
              λ used e. other n (omega arith) (λ z. used (same ∙ z)) (ap pgnum (sym same) ∙ e) in
            omega (arith, old.references y other, round.references y apart);
        freed_tables = λ k hk hk' used. elim (Bool-cases (k == n)) [
          | inl last' ↦
              let e = (==_iff k n).0 last' in
              let e' : p.frames g k ≡ p1.frames g n = ap (p.frames g) e ∙ sym same in
              ap p2.pp_ref (ap pgnum e') ∙ round.freed_table (λ z. used (e' ∙ z))
          | inr other ↦
              let y : ℕ = table p.frames g k in
              let early : p1.pp_ref y ≡ 0 =
                old.freed_tables k (ground (arith, hk, other)) hk' used in
              let apart : (p1.frames g n ≢ 0) → table p1.frames g n ≢ y = λ there e.
                let z =
                  owned.paged.tree.apart n k (omega arith) hk' (λ z. there (same ∙ z)) used
                    (ap pgnum (sym same) ∙ e) in
                ground (arith, other, z) in
              let gone =
                still_unmapped p1 p2 g y round.entries
                  (omega (arith, early, old.owned.paged.counted y)) in
              omega (arith, early, gone, round.references y apart)
        ];
        lost = λ y absent unused. let (a, b) = round.lost y absent unused in old.lost y a b;
      },
    )

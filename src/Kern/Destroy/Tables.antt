-- ===== src/Kern/Destroy/Tables.antt =====
-- What the loop of `env_free` over the entries of one page table leaves.
use mathlib.Core.Path.{subst}
use sisop_mendez.Base.{
  ==_iff, Bool-cases, List, arith, if◌then◌else◌, inl, inr, ltb, refl, some, suc, sym, true, zero,
  ℕ, ◌%◌, ◌&&◌, ◌*◌, ◌+◌, ◌/◌, ◌<◌, ◌==◌, ◌^◌, ◌↔◌, ◌∙◌, ◌≡◌, ◌≢◌, ◌≤◌,
}
use sisop_mendez.Kern.Destroy.{free_entries}
use sisop_mendez.Kern.Pages.{Pages, pgnum}
use sisop_mendez.Kern.Paging.{bit}
use sisop_mendez.Kern.Paging.Refines.{page_remove-Cleared}
use sisop_mendez.Kern.Paging.Space.{entry, mappings, table, user_tables, vpages}
use sisop_mendez.Kern.Paging.Steps.{Absent, Cleared, IsPaged}

-- An address space in order that an environment owns: its tables are referenced once and every
-- entry in use is present.
pub record IsOwned (p : Pages) (g : ℕ) (l : List ℕ) : Type 0 where
  pub paged : IsPaged p g l
  pub tables :
      (i : ℕ)
      → i < user_tables
      → p.frames g i ≢ 0
      → (bit (p.frames g i) 1 ≡ true) × (p.pp_ref (table p.frames g i) ≡ 1)
  pub present : (v : ℕ) → v < vpages → entry p.frames g v ≢ 0 → bit (entry p.frames g v) 1 ≡ true

-- The first `n` entries of the table `i` are empty, and the others as before.
pub record Emptied (p : Pages) (g i n : ℕ) (l : List ℕ) (p' : Pages) (l' : List ℕ) : Type 0 where
  pub paged : IsPaged p' g l'
  pub entries :
      (u : ℕ)
      → u < vpages
      → entry p'.frames g u ≡ (if u / 1024 == i && ltb (u % 1024) n then 0 else entry p.frames g u)
  pub directory : (k : ℕ) → p'.frames g k ≡ p.frames g k
  pub npages : p'.npages ≡ p.npages
  pub slack : (y : ℕ) → p'.pp_ref y + mappings p.frames g y ≡ p.pp_ref y + mappings p'.frames g y
  pub lost : (y : ℕ) → Absent y l' → p'.pp_ref y ≡ 0 → Absent y l × (p.pp_ref y ≡ 0)

Emptied-step :
    (p : Pages) (g i n : ℕ) (l : List ℕ) (p' : Pages) (l' : List ℕ) (p2 : Pages) (l2 : List ℕ)
    → n < 1024
    → Emptied p g i n l p' l'
    → Cleared p' g (i * 1024 + n) l' p2 l2
    → Emptied p g i (suc n) l p2 l2
Emptied-step p g i n l p' l' p2 l2 h old new = record {
  paged = new.paged;
  entries = λ u hu.
      let split : (u ≡ i * 1024 + n) ↔ ((u / 1024 ≡ i) × (u % 1024 ≡ n)) =
        (λ e. (omega arith, omega arith), λ e. omega arith) in
      ground (arith, old.entries u hu, new.entries u hu, split.0, split.1);
  directory = λ k. new.directory k ∙ old.directory k;
  npages = new.npages ∙ old.npages;
  slack = λ y. omega (arith, old.slack y, new.slack y);
  lost = λ y absent unused. let (a, b) = new.lost y absent unused in old.lost y a b;
}

Emptied-skip :
    (p : Pages) (g i n : ℕ) (l : List ℕ) (p' : Pages) (l' : List ℕ)
    → n < 1024
    → entry p'.frames g (i * 1024 + n) ≡ 0
    → Emptied p g i n l p' l'
    → Emptied p g i (suc n) l p' l'
Emptied-skip p g i n l p' l' h empty old = record {
  paged = old.paged;
  entries = λ u hu. elim (Bool-cases (u == i * 1024 + n)) [
    | inl here ↦
        let e = (==_iff u (i * 1024 + n)).0 here in
        let high : u / 1024 ≡ i = omega arith in
        let low : u % 1024 ≡ n = omega arith in
        let zero' : entry p'.frames g u ≡ 0 = rw e empty in ground (arith, high, low, zero')
    | inr other ↦
        let apart : (u / 1024 ≡ i) → u % 1024 ≢ n = λ a b. ground (arith, other, a, b) in
        ground (arith, old.entries u hu, apart)
  ];
  directory = old.directory;
  npages = old.npages;
  slack = old.slack;
  lost = old.lost;
}

-- The word of the table is the entry of its page.
word-entry :
    (frames : ℕ → ℕ → ℕ) (g i n : ℕ)
    → n < 1024
    → frames g i ≢ 0
    → frames (table frames g i) n ≡ entry frames g (i * 1024 + n)
unfolding entry
word-entry frames g i n h used =
    let high : (i * 1024 + n) / 1024 ≡ i = omega arith in
    let low : (i * 1024 + n) % 1024 ≡ n = omega arith in rw (high, low) (ground (arith, used))

pub free_entries-Emptied :
    (p : Pages) (g i n : ℕ) (l : List ℕ)
    → IsOwned p g l
    → i < user_tables
    → p.frames g i ≢ 0
    → n ≤ 1024
    → (p' : Pages) × (l' : List ℕ) × (free_entries n p g i (table p.frames g i) ≡ some p')
      × Emptied p g i n l p' l'
unfolding free_entries
free_entries-Emptied p g i zero l owned hi used h = (
  p,
  l,
  refl,
  record {
    paged = owned.paged;
    entries = λ u hu. ground arith;
    directory = λ k. refl;
    npages = refl;
    slack = λ y. refl;
    lost = λ y absent unused. (absent, unused);
  },
)
free_entries-Emptied p g i (suc n) l owned hi used h =
    let (p', l', done, old) = free_entries-Emptied p g i n l owned hi used (omega arith) in
    let low : (i * 1024 + n) % 1024 ≡ n = omega arith in
    let inside : i * 1024 + n < vpages = omega arith in
    let here : p'.frames (table p.frames g i) n ≡ entry p'.frames g (i * 1024 + n) =
      rw (sym (old.directory i))
        (word-entry p'.frames g i n (omega arith) (λ z. used (sym (old.directory i) ∙ z))) in
    let before : entry p'.frames g (i * 1024 + n) ≡ entry p.frames g (i * 1024 + n) =
      ground (arith, low, old.entries (i * 1024 + n) inside) in
    elim (Bool-cases (bit (entry p'.frames g (i * 1024 + n)) 1)) [
      | inl there ↦
          let page : pgnum (i * 2 ^ 22 + n * 4096) ≡ i * 1024 + n = omega arith in
          let (p2, l2, gone, cleared) =
            page_remove-Cleared p' g (i * 2 ^ 22 + n * 4096) l' old.paged (omega arith) in
          (
            p2,
            l2,
            rw (done, here, there) gone,
            Emptied-step p g i n l p' l' p2 l2 (omega arith) old
                (subst (λ v. Cleared p' g v l' p2 l2) page cleared),
          )
      | inr missing ↦ (
        p',
        l',
        rw (done, here, missing) refl,
        Emptied-skip p g i n l p' l' (omega arith)
            (ground (arith, before, missing, owned.present (i * 1024 + n) inside)) old,
      )
    ]

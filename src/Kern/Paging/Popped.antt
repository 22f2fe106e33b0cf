-- ===== src/Kern/Paging/Popped.antt =====
-- `page_alloc` with ALLOC_ZERO beside an address space in order.
use mathlib.Core.Path.{subst}
use sisop_mendez.Base.{
  All-map, Bool-cases, List, ap, arith, inl, inr, none, refl, sym, ℕ, ◌/◌, ◌<◌, ◌==◌, ◌∙◌, ◌∷◌, ◌≡◌,
  ◌≢◌,
}
use sisop_mendez.Kern.Chains.{Chain, Chain-cong}
use sisop_mendez.Kern.Pages.{Pages, pgnum, update, zero_frame}
use sisop_mendez.Kern.Paging.Space.{entry, table, user_tables, vpages}
use sisop_mendez.Kern.Paging.Steps.{Absent, IsData, IsPaged, mappings_cong}

unfoldable pub popped : Pages → ℕ → Pages
popped p page = record p {
  page_free_list = p.pp_link page;
  pp_link = update p.pp_link page none;
  frames = zero_frame p.frames page;
}

-- The first free page becomes one that may be mapped, zeroed and without references.
module _ (p : Pages) (g page : ℕ) (l : List ℕ) (paged : IsPaged p g (page ∷ l))
    (chain : Chain p.pp_link (p.pp_link page) l) (new : Absent page l) where
  pub popped-dir : (k : ℕ) → (popped p page).frames g k ≡ p.frames g k
  unfolding popped zero_frame
  popped-dir k = ground (arith, paged.root.0)

  fresh : (k : ℕ) → k < user_tables → p.frames g k ≢ 0 → table p.frames g k ≢ page
  fresh k h used e = (paged.tables k h used).1.0 (sym e)

  pub popped-entry : (v : ℕ) → v < vpages → entry (popped p page).frames g v ≡ entry p.frames g v
  unfolding popped zero_frame entry
  popped-entry v h = ground (arith, paged.root.0, fresh (v / 1024) (omega arith))

  popped-IsData : (x : ℕ) → IsData p g (page ∷ l) x → IsData (popped p page) g l x
  unfolding popped
  popped-IsData x d = record {
    inside = d.inside;
    not_free = d.not_free.1;
    not_root = d.not_root;
    not_table = λ k hk used. ground (arith, popped-dir k, d.not_table k hk);
  }

  pub page-IsData : IsData (popped p page) g l page
  unfolding popped
  page-IsData = record {
    inside = paged.free.0.0;
    not_free = new;
    not_root = paged.root.0;
    not_table = λ k hk used e.
        fresh k hk (λ z. used (popped-dir k ∙ z)) (ap pgnum (sym (popped-dir k)) ∙ e);
  }

  pub popped-IsPaged : IsPaged (popped p page) g l
  unfolding popped
  popped-IsPaged = record {
    chain =
        Chain-cong p.pp_link (update p.pp_link page none) (p.pp_link page) l
          (All-map (λ y. y ≢ page) _ l (λ y ne. ground (arith, ne)) new) chain;
    free = paged.free.1;
    ends = λ x absent. elim (Bool-cases (page == x)) [
      | inl same ↦ rw same refl
      | inr other ↦ rw other (paged.ends x (ground arith, absent))
    ];
    root = paged.root.1;
    tree = record {
      not_root = λ i h. ground (arith, popped-dir i, paged.tree.not_root i h);
      apart = λ i j h h'. ground (arith, popped-dir i, popped-dir j, paged.tree.apart i j h h');
    };
    tables = λ k hk used.
        rw (popped-dir k)
          (let old = paged.tables k hk (λ z. used (popped-dir k ∙ z)) in (old.0, old.1.1));
    pages = λ v hv used.
        let e = popped-entry v hv in
        subst (λ w. IsData (popped p page) g l (pgnum w)) (sym e)
          (popped-IsData (pgnum (entry p.frames g v)) (paged.pages v hv (λ z. used (e ∙ z))));
    counted = λ x.
        omega
          (arith, mappings_cong p.frames (popped p page).frames g x popped-entry, paged.counted x);
    small = paged.small;
    physical = paged.physical;
  }

pub popped-ref : (p : Pages) (page : ℕ) → p.pp_ref page ≡ 0 → (popped p page).pp_ref page ≡ 0
unfolding popped
popped-ref p page unused = unused

pub popped-zero : (p : Pages) (page k : ℕ) → (popped p page).frames page k ≡ 0
unfolding popped zero_frame
popped-zero p page k = ground arith

-- ===== src/Kern/Envs/Alloc.antt =====
-- What `env_alloc` makes of a free slot.
-- What the lookup of an id makes of the slot that the id names.
use mathlib.Core.Path.{subst}
use sisop_mendez.Base.{
  ==_iff, All, Bool, List, Option, [], ap, arith, false, if◌then◌else◌, inl, inr, none, refl, some,
  sym, true, ℕ, ◌<◌, ◌==◌, ◌^◌, ◌||◌, ◌∙◌, ◌∷◌, ◌≡◌, ◌≢◌, ◌≤◌, ◌⊎◌,
}
use sisop_mendez.Kern.Chains.{Chain, Chain-cong}
use sisop_mendez.Kern.Envs.{
  Error, alloc_env, commit, e_no_free_env, e_no_mem, env_alloc, env_setup_vm, envid2env, failed,
  fresh_env, next_id, no_child, stored, take_directory, with_directory,
}
use sisop_mendez.Kern.Envs.FreeList.{
  IsFreeList, ids-write, links, links-write, slots-write, write_other, write_self,
}
use sisop_mendez.Kern.Envs.Ids.{HasId, IsId, next_id-IsId, next_id-new}
use sisop_mendez.Kern.Pages.{Pages, alloc_page}
use sisop_mendez.Kern.Types.{Env, Kernel, envx, is_free, nenv}

envx-IsId : (e id : ℕ) → e < nenv → IsId e id → (envx id ≡ e) × ((id == 0) ≡ false)
envx-IsId e id h i = (omega (arith, i.slot), ground (arith, i.low))

pub envid2env-found :
    (k : Kernel) (e id : ℕ)
    → e < nenv
    → IsId e id
    → (k.envs e).env_id ≡ id
    → is_free (k.envs e).env_status ≡ false
    → envid2env k id false ≡ stored (some e)
unfolding envid2env
envid2env-found k e id h i own used =
    let (slot, nonzero) = envx-IsId e id h i in
    rw (nonzero, slot, used, (==_iff (k.envs e).env_id id).1 own) refl

pub envid2env-stale :
    (k : Kernel) (e id : ℕ) (checkperm : Bool)
    → e < nenv
    → IsId e id
    → (k.envs e).env_id ≢ id
    → envid2env k id checkperm ≡ failed
unfolding envid2env
envid2env-stale k e id checkperm h i other =
    let (slot, nonzero) = envx-IsId e id h i in
    let differs : ((k.envs e).env_id == id) ≡ false = ground (arith, other) in
    rw (nonzero, slot, differs) (always (is_free (k.envs e).env_status))
  where
    always :
        (b : Bool)
        → (if b || true
            then failed
            else (if checkperm then no_child k e k.curenv else stored (some e)))
          ≡ failed
    always b = ground arith

-- `commit` takes the first slot off the list.
commit-IsFreeList :
    (parent_id pgdir e : ℕ) (k : Kernel) (l : List ℕ)
    → IsFreeList k (e ∷ l)
    → Chain (links k.envs) (k.envs e).env_link l
    → All (λ j. j ≢ e) l
    → IsFreeList (commit parent_id pgdir k e) l
unfolding commit fresh_env
commit-IsFreeList parent_id pgdir e k l f c new = record {
  chain = Chain-cong (links k.envs) _ (k.envs e).env_link l (links-write k.envs e _ l new) c;
  slots = slots-write k.envs e _ l new f.slots.1;
  ids = ids-write k.envs e _ (λ h. inr (next_id-IsId e (k.envs e).env_id h (f.ids e h))) f.ids;
}

-- What the new environment in slot `e` is to those who look it up.
pub record Allocated (parent_id e : ℕ) (k k' : Kernel) : Type 0 where
  pub found : envid2env k' (k'.envs e).env_id false ≡ stored (some e)
  pub positive : (4096 ≤ (k'.envs e).env_id) × ((k'.envs e).env_id < 2 ^ 31)
  pub parent : (k'.envs e).env_parent_id ≡ parent_id
  pub stale : (k.envs e).env_id ≢ 0 → envid2env k' (k.envs e).env_id true ≡ failed
  pub others : (i : ℕ) → i ≢ e → k'.envs i ≡ k.envs i

commit-Allocated :
    (parent_id pgdir e : ℕ) (k : Kernel)
    → e < nenv
    → HasId e (k.envs e).env_id
    → Allocated parent_id e k (commit parent_id pgdir k e)
unfolding commit fresh_env
commit-Allocated parent_id pgdir e k h has =
    let id = (k.envs e).env_id in
    let k' = commit parent_id pgdir k e in
    let i = next_id-IsId e id h has in
    let self = write_self k.envs e (fresh_env e parent_id pgdir (k.envs e)) in
    let own : (k'.envs e).env_id ≡ next_id id e = ap (λ (env : Env). env.env_id) self in
    record {
      found = rw own (
          envid2env-found k' e (next_id id e) h i own
            (ap (λ (env : Env). is_free env.env_status) self));
      positive = rw own (i.low, i.high);
      parent = ap (λ (env : Env). env.env_parent_id) self;
      stale = λ used.
          envid2env-stale k' e id true h (had has used)
            (λ same. next_id-new e id h has (sym own ∙ same));
      others = λ i other. write_other k.envs i e _ other;
    }
  where
    had : {id : ℕ} → HasId e id → id ≢ 0 → IsId e id
    had (inl z) used = absurd (used z)
    had (inr i) used = i

-- How `env_alloc` can end, from the list `l` of the free slots.
pub data Ends (parent_id : ℕ) (k : Kernel) (p : Pages)
    : List ℕ → Error ⊎ (ℕ × Kernel × Pages) → Type 0 where
  no_slot : Ends parent_id k p [] (inl e_no_free_env)
  no_page : {l : List ℕ} → p.page_free_list ≡ none → Ends parent_id k p l (inl e_no_mem)
  allocated :
      {e : ℕ} {l : List ℕ} {k' : Kernel} {p' : Pages}
      → IsFreeList k' l
      → Allocated parent_id e k k'
      → Ends parent_id k p (e ∷ l) (inr (e, k', p'))

with_directory-Ends :
    (parent_id : ℕ) (k : Kernel) (p : Pages) (e : ℕ) (l : List ℕ) (o : Option ℕ)
    → p.page_free_list ≡ o
    → Chain (links k.envs) (k.envs e).env_link l
    → All (λ j. j ≢ e) l
    → IsFreeList k (e ∷ l)
    → Ends parent_id k p
        (e ∷ l)
        (with_directory parent_id k e (take_directory (alloc_page true p o)))
unfolding with_directory take_directory alloc_page
with_directory-Ends parent_id k p e l none empty c new f = no_page empty
with_directory-Ends parent_id k p e l (some pp) first c new f =
    allocated (commit-IsFreeList parent_id pp e k l f c new)
      (commit-Allocated parent_id pp e k f.slots.0.0 (f.ids e f.slots.0.0))

alloc_env-Ends :
    (parent_id : ℕ) (k : Kernel) (p : Pages) (o : Option ℕ) (l : List ℕ)
    → Chain (links k.envs) o l
    → IsFreeList k l
    → Ends parent_id k p l (alloc_env parent_id k p o)
unfolding alloc_env
alloc_env-Ends parent_id k p none [] c f = no_slot
alloc_env-Ends parent_id k p none (i ∷ l) c f = absurd c
alloc_env-Ends parent_id k p (some head) [] c f = absurd c
alloc_env-Ends parent_id k p (some head) (i ∷ l) (same, c, new) f =
    subst (λ e. Ends parent_id k p (i ∷ l) (with_directory parent_id k e (env_setup_vm p)))
      (sym same) (with_directory-Ends parent_id k p i l p.page_free_list refl c new f)

-- `env_alloc` fails without a free slot or page; otherwise it takes the first slot off the list.
pub env_alloc-Ends :
    (parent_id : ℕ) (k : Kernel) (p : Pages) (l : List ℕ)
    → IsFreeList k l
    → Ends parent_id k p l (env_alloc parent_id k p)
env_alloc-Ends parent_id k p l f = alloc_env-Ends parent_id k p k.env_free_list l f.chain f

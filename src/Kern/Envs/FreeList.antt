-- ===== src/Kern/Envs/FreeList.antt =====
-- The free list of environments, and what `env_alloc`, `env_free` and `env_init` make of it.
use mathlib.Core.Path.{subst}
use sisop_mendez.Base.{
  ==_iff, All, Bool-cases, List, Option, [], ap, arith, inl, inr, refl, sym, ℕ, ◌<◌, ◌==◌, ◌∷◌, ◌≡◌,
  ◌≢◌,
}
use sisop_mendez.Kern.Chains.{Chain, Chain-cong}
use sisop_mendez.Kern.Envs.{env_release}
use sisop_mendez.Kern.Envs.Ids.{HasId}
use sisop_mendez.Kern.Types.{Env, Envs, Kernel, env_free, nenv, write_env}

abbrev pub links : Envs → ℕ → Option ℕ
links envs i = (envs i).env_link

abbrev pub IsFreeSlot : Envs → ℕ → Type 0
IsFreeSlot envs i = (i < nenv) × ((envs i).env_status ≡ env_free)

-- The free list holds the slots of `l`, in this order, and every slot's id is one of its own.
pub record IsFreeList (k : Kernel) (l : List ℕ) : Type 0 where
  pub chain : Chain (links k.envs) k.env_free_list l
  pub slots : All (IsFreeSlot k.envs) l
  pub ids : (i : ℕ) → i < nenv → HasId i (k.envs i).env_id

pub links-write :
    (envs : Envs) (e : ℕ) (env : Env) (l : List ℕ)
    → All (λ j. j ≢ e) l
    → All (λ i. links (write_env envs e env) i ≡ links envs i) l
unfolding write_env
links-write envs e env [] new = tt
links-write envs e env (i ∷ l) (ne, new) = (ground (arith, ne), links-write envs e env l new)

pub slots-write :
    (envs : Envs) (e : ℕ) (env : Env) (l : List ℕ)
    → All (λ j. j ≢ e) l
    → All (IsFreeSlot envs) l
    → All (IsFreeSlot (write_env envs e env)) l
unfolding write_env
slots-write envs e env [] new free = tt
slots-write envs e env (i ∷ l) (ne, new) ((h, s), free) =
    ((h, ground (arith, ne, s)), slots-write envs e env l new free)

pub ids-write :
    (envs : Envs) (e : ℕ) (env : Env)
    → (e < nenv → HasId e env.env_id)
    → ((i : ℕ) → i < nenv → HasId i (envs i).env_id)
    → (i : ℕ) → i < nenv
    → HasId i ((write_env envs e env) i).env_id
unfolding write_env
ids-write envs e env own ids i h = elim (Bool-cases (e == i)) [
  | inl same ↦ let eq = (==_iff e i).0 same in rw (same, sym eq) (own (rw eq h))
  | inr other ↦ rw other (ids i h)
]

pub write_self : (envs : Envs) (e : ℕ) (env : Env) → write_env envs e env e ≡ env
unfolding write_env
write_self envs e env = ground arith

pub write_other : (envs : Envs) (i e : ℕ) (env : Env) → i ≢ e → write_env envs e env i ≡ envs i
unfolding write_env
write_other envs i e env other = ground (arith, other)

-- `env_free` puts a slot that is not free in front of the list.
pub env_release-IsFreeList :
    (e : ℕ) (k : Kernel) (l : List ℕ)
    → IsFreeList k l
    → e < nenv
    → All (λ j. j ≢ e) l
    → IsFreeList (env_release e k) (e ∷ l)
unfolding env_release
env_release-IsFreeList e k l f h new = record {
  chain = (
    refl,
    subst (λ (env : Env). Chain (links (env_release e k).envs) env.env_link l)
        (sym (write_self k.envs e _))
        (Chain-cong (links k.envs) (links (env_release e k).envs) k.env_free_list l
          (links-write k.envs e _ l new) f.chain),
    new,
  );
  slots = (
    (h, ap (λ (env : Env). env.env_status) (write_self k.envs e _)),
    slots-write k.envs e _ l new f.slots,
  );
  ids = ids-write k.envs e _ (λ h. f.ids e h) f.ids;
}

-- ===== src/Kern/Envs/Init.antt =====
-- The free list that `env_init` makes.
use sisop_mendez.Base.{
  ==_iff, All, Bool-cases, List, Option, [], ap, arith, false, if◌then◌else◌, inl, inr, none, refl,
  some, suc, zero, ℕ, ◌+◌, ◌<◌, ◌==◌, ◌∙◌, ◌∷◌, ◌≡◌, ◌≢◌, ◌≤◌,
}
use sisop_mendez.Kern.Chains.{Chain}
use sisop_mendez.Kern.Envs.{env_init, init_envs}
use sisop_mendez.Kern.Envs.FreeList.{IsFreeList, IsFreeSlot, links}
use sisop_mendez.Kern.Types.{Envs, Kernel, env_free, nenv, write_env}

abbrev pub range : ℕ → ℕ → List ℕ
range i zero = []
range i (suc n) = i ∷ range (i + 1) n

pub record IsInit (envs : Envs) (i : ℕ) (next : Option ℕ) : Type 0 where
  pub id : (envs i).env_id ≡ 0
  pub status : (envs i).env_status ≡ env_free
  pub link : (envs i).env_link ≡ next

init_envs-IsInit :
    (n : ℕ) (envs : Envs) (i : ℕ) → i < n → IsInit (init_envs n envs) i (some (i + 1))
unfolding init_envs write_env
init_envs-IsInit zero envs i h = absurd (omega arith)
init_envs-IsInit (suc n) envs i h = elim (Bool-cases (n == i)) [
  | inl same ↦ record {
    id = rw same refl;
    status = rw same refl;
    link = rw same (ap (λ j. some (j + 1)) ((==_iff n i).0 same));
  }
  | inr other ↦
      let earlier = init_envs-IsInit n envs i (before i n h other) in
      record {
        id = rw other earlier.id;
        status = rw other earlier.status;
        link = rw other earlier.link;
      }
]
  where
    before : (i n : ℕ) → i < suc n → (n == i) ≡ false → i < n
    before i n l other = ground arith

-- The slot that follows the last one is none.
abbrev pub next_slot : ℕ → Option ℕ
next_slot i = if 1023 == i then none else some (i + 1)

env_init-IsInit : (k : Kernel) (i : ℕ) → i < nenv → IsInit (env_init k).envs i (next_slot i)
unfolding env_init write_env
env_init-IsInit k i h = elim (Bool-cases (1023 == i)) [
  | inl same ↦
      let last = init_envs-IsInit nenv k.envs 1023 (omega arith) in
      record { id = rw same last.id; status = rw same last.status; link = rw same refl }
  | inr other ↦
      let each = init_envs-IsInit nenv k.envs i h in
      record { id = rw other each.id; status = rw other each.status; link = rw other each.link }
]

range_new : (i n j : ℕ) → j < i → All (λ m. m ≢ j) (range i n)
range_new i zero j h = tt
range_new i (suc n) j h = (omega arith, range_new (i + 1) n j (omega arith))

range-Chain :
    (envs : Envs) (i n : ℕ)
    → ((j : ℕ) → j < nenv → IsInit envs j (next_slot j))
    → i + suc n ≡ nenv
    → Chain (links envs) (some i) (range i (suc n))
range-Chain envs i zero init e =
    let final : next_slot i ≡ none = ground arith in
    let link : links envs i ≡ none = (init i (omega arith)).link ∙ final in (refl, rw link tt, tt)
range-Chain envs i (suc n) init e =
    let next : next_slot i ≡ some (i + 1) = ground arith in
    let link : links envs i ≡ some (i + 1) = (init i (omega arith)).link ∙ next in
    (
      refl,
      rw link (range-Chain envs (i + 1) n init (omega arith)),
      range_new (i + 1) (suc n) i (omega arith),
    )

range-slots :
    (envs : Envs) (i n : ℕ)
    → ((j : ℕ) → j < nenv → IsInit envs j (next_slot j))
    → i + n ≤ nenv
    → All (IsFreeSlot envs) (range i n)
range-slots envs i zero init h = tt
range-slots envs i (suc n) init h =
    ((omega arith, (init i (omega arith)).status), range-slots envs (i + 1) n init (omega arith))

-- `env_init` makes a list of all slots, in the order of the array.
pub env_init-IsFreeList : (k : Kernel) → IsFreeList (env_init k) (range 0 nenv)
unfolding env_init
env_init-IsFreeList k = record {
  chain = range-Chain (env_init k).envs 0 1023 (env_init-IsInit k) refl;
  slots = range-slots (env_init k).envs 0 nenv (env_init-IsInit k) (omega arith);
  ids = λ i h. inl (env_init-IsInit k i h).id;
}

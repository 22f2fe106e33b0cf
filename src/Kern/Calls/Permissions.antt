-- ===== src/Kern/Calls/Permissions.antt =====
-- Whom a call may change, and what a new environment is.
use sisop_mendez.Base.{
  Bool, List, Option, [], Option-cases, ap, arith, false, if◌then◌else◌, inl, inr, none, not, refl,
  some, sym, true, ℕ, ◌==◌, ◌||◌, ◌∙◌, ◌∷◌, ◌≡◌, ◌≢◌, ◌⊎◌,
}
use sisop_mendez.Kern.Calls.{
  child_of, forked, refused, set_settable, set_status, settable, sys_env_set_status, sys_exofork,
}
use sisop_mendez.Kern.Envs.{Error, e_bad_env, e_inval, e_no_free_env, e_no_mem, envid2env, failed}
use sisop_mendez.Kern.Chains.{Chain}
use sisop_mendez.Kern.Envs.Alloc.{Allocated, Ends, env_alloc-Ends}
use sisop_mendez.Kern.Envs.FreeList.{IsFreeList, links, write_other, write_self}
use sisop_mendez.Kern.Pages.{Pages}
use sisop_mendez.Kern.Types.{
  Env, Kernel, answer_zero, env_free, env_not_runnable, envx, is_free, put_env,
}

-- Neither the current environment nor a child of it.
pub record IsStranger (k : Kernel) (c e : ℕ) : Type 0 where
  pub other : e ≢ c
  pub no_child : (k.envs e).env_parent_id ≢ (k.envs c).env_id

envid2env-stranger :
    (k : Kernel) (c envid : ℕ)
    → k.curenv ≡ some c
    → envid ≢ 0
    → IsStranger k c (envx envid)
    → envid2env k envid true ≡ failed
unfolding envid2env
envid2env-stranger k c envid current nonzero s =
    let real : (envid == 0) ≡ false = ground (arith, nonzero) in
    let apart : (envx envid == c) ≡ false = ground (arith, s.other) in
    let foreign : ((k.envs (envx envid)).env_parent_id == (k.envs c).env_id) ≡ false =
      ground (arith, s.no_child) in
    rw (real, current, apart, foreign)
      (either
        (is_free (k.envs (envx envid)).env_status || not ((k.envs (envx envid)).env_id == envid)))
  where
    either : (b : Bool) → (if b then failed else failed) ≡ failed
    either b = ground arith

-- `sys_env_set_status` by the current environment answers -E_INVAL or -E_BAD_ENV for every id,
-- other than 0, whose slot holds neither that environment nor a child of it.
pub sys_env_set_status-stranger :
    (k : Kernel) (c envid status : ℕ)
    → k.curenv ≡ some c
    → envid ≢ 0
    → IsStranger k c (envx envid)
    → (sys_env_set_status k envid status ≡ refused e_inval)
      ⊎ (sys_env_set_status k envid status ≡ refused e_bad_env)
unfolding set_settable set_status
sys_env_set_status-stranger k c envid status current nonzero s =
    elim (Option-cases (settable status)) [
      | inl bad ↦ inl (rw bad refl)
      | inr (st, good) ↦ inr (rw (good, envid2env-stranger k c envid current nonzero s) refl)
    ]

-- What `sys_exofork` makes of the free slot that `env_alloc` takes.
pub record Forked (c e : ℕ) (k k' : Kernel) : Type 0 where
  pub status : (k'.envs e).env_status ≡ env_not_runnable
  pub parent : (k'.envs e).env_parent_id ≡ (k.envs c).env_id
  pub registers :
      (k'.envs e).env_tf
      ≡ record ((k.envs c).env_tf) { tf_regs = record ((k.envs c).env_tf.tf_regs) { reg_eax = 0 } }
  pub another : e ≢ c
  pub was_free : (k.envs e).env_status ≡ env_free
  pub from_the_list : k.env_free_list ≡ some e
  pub others : (i : ℕ) → i ≢ e → k'.envs i ≡ k.envs i

child_of-Forked :
    (c e : ℕ) (k k' : Kernel)
    → c ≢ e
    → (k.envs e).env_status ≡ env_free
    → k.env_free_list ≡ some e
    → Allocated (k.envs c).env_id e k k'
    → Forked c e k (put_env k' e (child_of (k'.envs c).env_tf (k'.envs e)))
unfolding child_of
child_of-Forked c e k k' differ free first a =
    let self = write_self k'.envs e (child_of (k'.envs c).env_tf (k'.envs e)) in
    record {
      status = ap (λ (env : Env). env.env_status) self;
      parent = ap (λ (env : Env). env.env_parent_id) self ∙ a.parent;
      registers =
          ap (λ (env : Env). env.env_tf) self
          ∙ ap (λ (env : Env). answer_zero env.env_tf) (a.others c differ);
      another = λ same. differ (sym same);
      was_free = free;
      from_the_list = first;
      others = λ i other. write_other k'.envs i e _ other ∙ a.others i other;
    }

-- How `sys_exofork` can end.
pub data ForkEnds (c : ℕ) (k : Kernel) (p : Pages) : Error ⊎ (ℕ × Kernel × Pages) → Type 0 where
  no_slot : k.env_free_list ≡ none → ForkEnds c k p (inl e_no_free_env)
  no_page : p.page_free_list ≡ none → ForkEnds c k p (inl e_no_mem)
  fork_of : {e : ℕ} {k' : Kernel} {p' : Pages} → Forked c e k k' → ForkEnds c k p (inr (e, k', p'))

-- The free list starts with its first slot.
Chain-none : (link : ℕ → Option ℕ) (o : Option ℕ) → Chain link o [] → o ≡ none
Chain-none link none c = refl
Chain-none link (some i) c = absurd c

Chain-first :
    (link : ℕ → Option ℕ) (o : Option ℕ) (e : ℕ) (l : List ℕ) → Chain link o (e ∷ l) → o ≡ some e
Chain-first link none e l c = absurd c
Chain-first link (some i) e l c = ap some c.0

forked-ForkEnds :
    (c : ℕ) (k : Kernel) (p : Pages) (l : List ℕ) (r : Error ⊎ (ℕ × Kernel × Pages))
    → IsFreeList k l
    → is_free (k.envs c).env_status ≡ false
    → Ends (k.envs c).env_id k p l r
    → ForkEnds c k p (forked c r)
unfolding forked
forked-ForkEnds c k p _ _ free used Ends.no_slot = no_slot (Chain-none (links k.envs) _ free.chain)
forked-ForkEnds c k p l _ free used (Ends.no_page h) = no_page h
forked-ForkEnds c k p (e ∷ l) _ free used (Ends.allocated f a) = fork_of (
    child_of-Forked c e k _ (apart free.slots.0.1) free.slots.0.1
      (Chain-first (links k.envs) _ e l free.chain) a)
  where
    apart : (k.envs e).env_status ≡ env_free → c ≢ e
    apart h same = cc (ap (λ i. is_free (k.envs i).env_status) same, used, ap is_free h)

-- From a well-formed free list, `sys_exofork` by an environment in use fails only with
-- -E_NO_FREE_ENV and an empty list, or with -E_NO_MEM and no free page; otherwise it makes a
-- child in the first slot of the list, which was free and is not the caller's: the child is not
-- runnable, has the trap frame of the caller with a 0 in eax, and has the caller as its parent;
-- no other environment changes.
pub sys_exofork-ForkEnds :
    (c : ℕ) (k : Kernel) (p : Pages) (l : List ℕ)
    → IsFreeList k l
    → is_free (k.envs c).env_status ≡ false
    → ForkEnds c k p (sys_exofork c k p)
sys_exofork-ForkEnds c k p l f used =
    forked-ForkEnds c k p l _ f used (env_alloc-Ends (k.envs c).env_id k p l f)

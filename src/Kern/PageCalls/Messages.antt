-- ===== src/Kern/PageCalls/Messages.antt =====
-- Messages between environments: `sys_ipc_recv` and `sys_ipc_try_send`.
use mathlib.Core.Path.{subst}
use sisop_mendez.Base.{
  ==_iff, Bool-cases, List, ap, arith, false, if◌then◌else◌, inl, inr, leb, refl, some, sym, true,
  ℕ, ◌%◌, ◌<◌, ◌==◌, ◌∙◌, ◌≡◌, ◌≢◌, ◌≤◌,
}
use sisop_mendez.Kern.Envs.{e_inval, e_ipc_not_recv, envid2env, stored}
use sisop_mendez.Kern.PageCalls.{
  deliver, fails, faults, is_bad_va, returns, send_page, set_ipc_perm, sys_ipc_recv,
  sys_ipc_try_send, try_send, with_env, with_pgdir, yields,
}
use sisop_mendez.Kern.Pages.{Pages, pgnum, pgsize, utop}
use sisop_mendez.Kern.Paging.Refines.{page_lookup-entry}
use sisop_mendez.Kern.Paging.Space.{entry}
use sisop_mendez.Kern.Paging.Steps.{IsPaged}
use sisop_mendez.Kern.Types.{
  Kernel, env_not_runnable, env_runnable, envx, is_free, put_env, write_env,
}

-- The environment in slot `d` is in use, and its id names the slot.
pub record IsNamed (k : Kernel) (d : ℕ) : Type 0 where
  pub used : is_free (k.envs d).env_status ≡ false
  pub slot : envx (k.envs d).env_id ≡ d
  pub nonzero : (k.envs d).env_id ≢ 0

named-found :
    (k : Kernel) (d id : ℕ)
    → IsNamed k d
    → (k.envs d).env_id ≡ id
    → envid2env k id false ≡ stored (some d)
unfolding envid2env
named-found k d id named e =
    let slot : id % 1024 ≡ d = sym (ap (λ x. x % 1024) e) ∙ named.slot in
    let nonzero : (id == 0) ≡ false = ground (arith, e, named.nonzero) in
    rw (nonzero, slot, named.used, (==_iff (k.envs d).env_id id).1 e) refl

-- What the message of `c` has made of the environment `d`.
pub record Received (k : Kernel) (c d value : ℕ) (k' : Kernel) : Type 0 where
  pub value_is : (k'.envs d).env_ipc_value ≡ value
  pub from_is : (k'.envs d).env_ipc_from ≡ (k.envs c).env_id
  pub no_page : (k'.envs d).env_ipc_perm ≡ 0
  pub answer : (k'.envs d).env_tf.tf_regs.reg_eax ≡ 0
  pub runs_again : (k'.envs d).env_status ≡ env_runnable
  pub done : (k'.envs d).env_ipc_recving ≡ false
  pub same_id : (k'.envs d).env_id ≡ (k.envs d).env_id
  pub others : (e : ℕ) → e ≢ d → k'.envs e ≡ k.envs e

send-Received :
    (c d : ℕ) (k : Kernel) (p : Pages) (value srcva perm : ℕ)
    → IsNamed k d
    → (k.envs d).env_ipc_recving ≡ true
    → utop ≤ srcva
    → (k' : Kernel) × (sys_ipc_try_send c k p (k.envs d).env_id value srcva perm ≡ returns (k', p))
      × Received k c d value k'
unfolding sys_ipc_try_send with_env try_send deliver write_env
send-Received c d k p value srcva perm named waiting high =
    let from_same : ((deliver c d value (set_ipc_perm d 0 k)).envs d).env_ipc_from
        ≡ (k.envs c).env_id =
      ground arith in
    let above : leb utop srcva ≡ true = ground arith in
    (
      deliver c d value (set_ipc_perm d 0 k),
      rw (named-found k d (k.envs d).env_id named refl, waiting, above) refl,
      record {
        value_is = rw ((==_iff d d).1 refl) refl;
        from_is = from_same;
        no_page = rw ((==_iff d d).1 refl) refl;
        answer = rw ((==_iff d d).1 refl) refl;
        runs_again = rw ((==_iff d d).1 refl) refl;
        done = rw ((==_iff d d).1 refl) refl;
        same_id = rw ((==_iff d d).1 refl) refl;
        others = λ e ne. ground (arith, ne);
      },
    )

-- What `sys_ipc_recv` does to the environment `d` that calls it, up to `blocked`.
record Waits (k : Kernel) (d dstva : ℕ) (k' : Kernel) : Type 0 where
  recving : (k'.envs d).env_ipc_recving ≡ true
  same_id : (k'.envs d).env_id ≡ (k.envs d).env_id
  used : is_free (k'.envs d).env_status ≡ false
  blocks :
      is_bad_va dstva ≡ false
      → ((k'.envs d).env_status ≡ env_not_runnable) × ((k'.envs d).env_ipc_dstva ≡ dstva)
  others : (e : ℕ) → e ≢ d → k'.envs e ≡ k.envs e

recv-Waits :
    (d : ℕ) (k : Kernel) (dstva : ℕ)
    → is_free (k.envs d).env_status ≡ false
    → (k' : Kernel) × (sys_ipc_recv d k dstva
        ≡ (if is_bad_va dstva then fails e_inval k' else yields k'))
      × Waits k d dstva k'
unfolding sys_ipc_recv write_env
recv-Waits d k dstva used = elim (Bool-cases (is_bad_va dstva)) [
  | inl bad ↦ (
    put_env k d (record (k.envs d) { env_ipc_recving = true }),
    rw bad refl,
    record {
      recving = rw ((==_iff d d).1 refl) refl;
      same_id = rw ((==_iff d d).1 refl) refl;
      used = rw ((==_iff d d).1 refl) used;
      blocks = λ good. cc (bad, good);
      others = λ e ne. ground (arith, ne);
    },
  )
  | inr good ↦
      let k1 : Kernel = put_env k d (record (k.envs d) { env_ipc_recving = true }) in
      (
        put_env k1 d (record (k1.envs d) { env_ipc_dstva = dstva; env_status = env_not_runnable }),
        rw good refl,
        record {
          recving = rw ((==_iff d d).1 refl) refl;
          same_id = rw ((==_iff d d).1 refl) refl;
          used = rw ((==_iff d d).1 refl) refl;
          blocks = λ good'. (rw ((==_iff d d).1 refl) refl, rw ((==_iff d d).1 refl) refl);
          others = λ e ne. ground (arith, ne);
        },
      )
]

-- From a call of `sys_ipc_recv` that does not block, or does, the next message of another
-- environment without a page is delivered, and a message behind it is refused.
pub record Exchanged (k1 : Kernel) (p : Pages) (c d value srcva perm id : ℕ) : Type 0 where
  pub k2 : Kernel
  pub sent : sys_ipc_try_send c k1 p id value srcva perm ≡ returns (k2, p)
  pub received : Received k1 c d value k2
  pub once :
      (c' value' srcva' perm' : ℕ)
      → sys_ipc_try_send c' k2 p id value' srcva' perm' ≡ fails e_ipc_not_recv (k2, p)

Waits-Exchanged :
    (c d dstva : ℕ) (k k1 : Kernel) (p : Pages) (value srcva perm : ℕ)
    → IsNamed k d
    → Waits k d dstva k1
    → utop ≤ srcva
    → Exchanged k1 p c d value srcva perm (k.envs d).env_id
unfolding sys_ipc_try_send with_env try_send
Waits-Exchanged c d dstva k k1 p value srcva perm named waits high =
    let named1 : IsNamed k1 d = record {
      used = waits.used;
      slot = rw waits.same_id named.slot;
      nonzero = rw waits.same_id named.nonzero;
    } in
    let (k2, sent, received) = send-Received c d k1 p value srcva perm named1 waits.recving high in
    let named2 : IsNamed k2 d = record {
      used = rw received.runs_again refl;
      slot = rw (received.same_id ∙ waits.same_id) named.slot;
      nonzero = rw (received.same_id ∙ waits.same_id) named.nonzero;
    } in
    record {
      k2 = k2;
      sent =
          subst (λ i. sys_ipc_try_send c k1 p i value srcva perm ≡ returns (k2, p)) waits.same_id
            sent;
      received = received;
      once = λ c' value' srcva' perm'.
          rw
            (
              named-found k2 d (k.envs d).env_id named2 (received.same_id ∙ waits.same_id),
              received.done,
            )
            refl;
    }

-- An environment in use whose id is not 0 and names its slot, and which calls `sys_ipc_recv`
-- with an aligned address below UTOP, blocks: it is not runnable, receiving, and has the address
-- as its `env_ipc_dstva`; a later `sys_ipc_try_send` to its id without a page gives it the value
-- and the sender's id, and lets it run again with the answer 0; no other environment changes,
-- and the next message is refused.
pub sys_ipc_recv-send :
    (c d : ℕ) (k : Kernel) (p : Pages) (dstva value srcva perm : ℕ)
    → IsNamed k d
    → is_bad_va dstva ≡ false
    → utop ≤ srcva
    → (k1 : Kernel) × (sys_ipc_recv d k dstva ≡ yields k1)
      × ((k1.envs d).env_status ≡ env_not_runnable)
      × ((k1.envs d).env_ipc_recving ≡ true)
      × ((k1.envs d).env_ipc_dstva ≡ dstva)
      × ((e : ℕ) → e ≢ d → k1.envs e ≡ k.envs e)
      × Exchanged k1 p c d value srcva perm (k.envs d).env_id
sys_ipc_recv-send c d k p dstva value srcva perm named good high =
    let (k1, called, waits) = recv-Waits d k dstva named.used in
    (
      k1,
      called ∙ rw good refl,
      (waits.blocks good).0,
      waits.recving,
      (waits.blocks good).1,
      waits.others,
      Waits-Exchanged c d dstva k k1 p value srcva perm named waits high,
    )

-- A call of `sys_ipc_recv` with any other address is an error and does not block, but the next
-- message without a page is delivered all the same: it overwrites the answer, and makes the
-- environment runnable while it may be running.
pub sys_ipc_recv_fails :
    (c d : ℕ) (k : Kernel) (p : Pages) (dstva value srcva perm : ℕ)
    → IsNamed k d
    → is_bad_va dstva ≡ true
    → utop ≤ srcva
    → (k1 : Kernel) × (sys_ipc_recv d k dstva ≡ fails e_inval k1)
      × Exchanged k1 p c d value srcva perm (k.envs d).env_id
sys_ipc_recv_fails c d k p dstva value srcva perm named bad high =
    let (k1, called, waits) = recv-Waits d k dstva named.used in
    (k1, called ∙ rw bad refl, Waits-Exchanged c d dstva k k1 p value srcva perm named waits high)

-- A page that is not mapped is not refused: in an address space in order, `sys_ipc_try_send` of a
-- page of the sender without an entry reads the entry through a pointer that was never set.
pub sys_ipc_try_send_unmapped :
    (c d g h : ℕ) (k : Kernel) (p : Pages) (l : List ℕ) (value srcva perm : ℕ)
    → IsNamed k d
    → (k.envs d).env_ipc_recving ≡ true
    → (k.envs c).env_pgdir ≡ some g
    → (k.envs d).env_pgdir ≡ some h
    → is_bad_va srcva ≡ false
    → IsPaged p g l
    → entry p.frames g (pgnum srcva) ≡ 0
    → sys_ipc_try_send c k p (k.envs d).env_id value srcva perm ≡ faults
unfolding sys_ipc_try_send with_env try_send with_pgdir send_page
sys_ipc_try_send_unmapped c d g h k p l value srcva perm named waiting own its good paged none' =
    let below : leb utop srcva ≡ false = ground arith in
    let aligned : (srcva % pgsize == 0) ≡ true = ground arith in
    let low : srcva < utop = ground arith in
    rw
      (
        named-found k d (k.envs d).env_id named refl,
        waiting,
        below,
        aligned,
        own,
        its,
        page_lookup-entry p g srcva l paged low,
        none',
      )
      refl

-- ===== src/Kern/Envs/Ids.antt =====
-- The ids that `env_alloc` makes, and what `envid2env` makes of them.
use sisop_mendez.Base.{
  Bool-cases, arith, if◌then◌else◌, inl, inr, ltb, ltb→lt, suc, sym, zero, ℕ, ◌%◌, ◌*◌, ◌+◌, ◌-◌,
  ◌/◌, ◌<◌, ◌^◌, ◌∙◌, ◌≡◌, ◌≢◌, ◌≤◌, ◌⊎◌,
}
use sisop_mendez.Kern.Envs.{next_id}
use sisop_mendez.Kern.Types.{nenv, word}

-- What slot `e` may hold as its id: nothing yet, or a positive `int` that names the slot.
pub record IsId (e id : ℕ) : Type 0 where
  pub slot : id % 4096 ≡ e
  pub low : 4096 ≤ id
  pub high : id < 2 ^ 31

abbrev pub HasId : ℕ → ℕ → Type 0
HasId e id = (id ≡ 0) ⊎ IsId e id

-- The next id in the slot: 4096 more, and from the last one below 2^31 the first again.
abbrev pub successor : ℕ → ℕ → ℕ
successor e id = if ltb (id + 4096) (2 ^ 31) then id + 4096 else 4096 + e

generation-next :
    (e id : ℕ) → e < nenv → IsId e id → ((id + 4096) % word) / nenv * nenv ≡ id + 4096 - e
generation-next e id h i = omega (arith, i.slot, i.low, i.high)

next_id-next : (e id : ℕ) → e < nenv → IsId e id → next_id id e ≡ successor e id
next_id-next e id h i = rw (generation-next e id h i) (ground (arith, i.slot, i.low, i.high))

successor-IsId : (e id : ℕ) → e < nenv → IsId e id → IsId e (successor e id)
successor-IsId e id h i = elim (Bool-cases (ltb (id + 4096) (2 ^ 31))) [
  | inl less ↦ rw less (record {
    slot = omega (arith, i.slot);
    low = omega arith;
    high = ltb→lt (id + 4096) (2 ^ 31) less;
  })
  | inr more ↦ rw more (record { slot = omega arith; low = omega arith; high = omega arith })
]

pub next_id-IsId : (e id : ℕ) → e < nenv → HasId e id → IsId e (next_id id e)
next_id-IsId e id h (inl z) =
    rw z (record { slot = omega arith; low = omega arith; high = omega arith })
next_id-IsId e id h (inr i) = rw (next_id-next e id h i) (successor-IsId e id h i)

pub next_id-new : (e id : ℕ) → e < nenv → HasId e id → next_id id e ≢ id
next_id-new e id h (inl z) same = absurd (low (next_id-IsId e id h (inl z)).low)
  where
    low : 4096 ≤ next_id id e → ⊥
    low l = omega (arith, same, z)
next_id-new e id h (inr i) same = differ (sym (next_id-next e id h i) ∙ same)
  where
    differ : successor e id ≢ id
    differ = ground (arith, i.slot, i.low, i.high)

-- The id of slot `e` after `n` allocations.
unfoldable pub nth_id : ℕ → ℕ → ℕ
nth_id e zero = 0
nth_id e (suc n) = next_id (nth_id e n) e

-- The ids of a slot come in order, and after 524287 of them again from the first.
pub nth_id_lem : (e n : ℕ) → e < nenv → nth_id e (suc n) ≡ (n % 524287 + 1) * 4096 + e
unfolding nth_id
nth_id_lem e zero h = omega arith
nth_id_lem e (suc n) h =
    let earlier = nth_id_lem e n h in
    let i : IsId e (nth_id e (suc n)) =
      rw earlier (record { slot = omega arith; low = omega arith; high = omega arith }) in
    next_id-next e (nth_id e (suc n)) h i ∙ last (nth_id e (suc n)) earlier
  where
    last :
        (id : ℕ)
        → id ≡ (n % 524287 + 1) * 4096 + e
        → successor e id ≡ (suc n % 524287 + 1) * 4096 + e
    last id eq = ground arith

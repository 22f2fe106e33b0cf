-- ===== src/Kern/Cpus/Entries.antt =====
-- The entries of processors that `mp_init` reads.
use Prim.Native.Nat.{min}
use sisop_mendez.Base.{
  Bool-cases, ap, arith, false, inl, inr, leb, suc, true, zero, ℕ, ◌+◌, ◌<◌, ◌==◌, ◌∙◌, ◌≡◌, ◌≤◌,
}
use sisop_mendez.Kern.Cpus.{Cpus, add_cpu, ncpus, no_cpus, read_entries}
use sisop_mendez.Kern.Memory.{Memory}

-- The number of entries of processors among the first `n`, up to one that is unknown.
unfoldable processors : Memory → ℕ → ℕ → ℕ
processors mem p zero = 0
processors mem p (suc n) = elim (mem p == 0) [
  | true ↦ processors mem (p + 20) n + 1
  | false ↦ elim (leb (mem p) 4) [ true ↦ processors mem (p + 8) n | false ↦ 0 ]
]

-- The CPUs have their indices as ids, and there are at most as many as the array holds.
record IsNumbered (c : Cpus) : Type 0 where
  few : c.ncpu ≤ ncpus
  ids : (i : ℕ) → i < c.ncpu → c.cpu_ids i ≡ i
  boot : c.bootcpu ≤ c.ncpu

add_cpu-IsNumbered : (mem : Memory) (p : ℕ) (c : Cpus) → IsNumbered c → IsNumbered (add_cpu mem p c)
unfolding add_cpu
add_cpu-IsNumbered mem p c h = record {
  few = ground (arith, h.few);
  ids = λ i lt. ground (arith, h.ids i, h.few);
  boot = ground (arith, h.boot);
}

read_entries-IsNumbered :
    (mem : Memory) (p n : ℕ) (c : Cpus) → IsNumbered c → IsNumbered (read_entries mem p n c)
unfolding read_entries
read_entries-IsNumbered mem p zero c h = h
read_entries-IsNumbered mem p (suc n) c h = elim (Bool-cases (mem p == 0)) [
  | inl e ↦
      rw (read_entries, e)
        (read_entries-IsNumbered mem (p + 20) n (add_cpu mem p c) (add_cpu-IsNumbered mem p c h))
  | inr ne ↦ elim (Bool-cases (leb (mem p) 4)) [
    | inl le ↦ rw (read_entries, ne, le) (read_entries-IsNumbered mem (p + 8) n c h)
    | inr gt ↦ rw (read_entries, ne, gt) (record { few = h.few; ids = h.ids; boot = h.boot })
  ]
]

add_cpu-ncpu :
    (mem : Memory) (p : ℕ) (c : Cpus)
    → c.ncpu ≤ ncpus
    → (add_cpu mem p c).ncpu ≡ min ncpus (c.ncpu + 1)
unfolding add_cpu
add_cpu-ncpu mem p c h = ground arith

read_entries-ncpu :
    (mem : Memory) (p n : ℕ) (c : Cpus)
    → c.ncpu ≤ ncpus
    → (read_entries mem p n c).ncpu ≡ min ncpus (c.ncpu + processors mem p n)
unfolding read_entries processors
read_entries-ncpu mem p zero c h = omega arith
read_entries-ncpu mem p (suc n) c h = elim (Bool-cases (mem p == 0)) [
  | inl e ↦
      let added = add_cpu-ncpu mem p c h in
      let rest = read_entries-ncpu mem (p + 20) n (add_cpu mem p c) (omega (arith, added)) in
      rw (read_entries, processors, e) (omega (arith, added, rest))
  | inr ne ↦ elim (Bool-cases (leb (mem p) 4)) [
    | inl le ↦ rw (read_entries, processors, ne, le) (read_entries-ncpu mem (p + 8) n c h)
    | inr gt ↦ rw (read_entries, processors, ne, gt) (omega arith)
  ]
]

-- The entries behind a header that is right, with the address of the local APIC.
abbrev table_cpus : Memory → ℕ → ℕ → ℕ → Cpus
table_cpus mem p n apic = read_entries mem p n (record no_cpus { ismp = true; lapicaddr = apic })

-- On every table, `mp_init` counts the processors up to the first unknown entry, at most 8 of them,
-- gives each its index as its id, and takes one of them, or the place behind the last one, as the
-- CPU that boots.
table_cpus-counts :
    (mem : Memory) (p n apic : ℕ)
    → ((table_cpus mem p n apic).ncpu ≡ min ncpus (processors mem p n))
      × IsNumbered (table_cpus mem p n apic)
table_cpus-counts mem p n apic =
    let fresh = record no_cpus { ismp = true; lapicaddr = apic } in
    (
      read_entries-ncpu mem p n fresh (omega arith) ∙ ap (min ncpus) (omega arith),
      read_entries-IsNumbered mem p n fresh (record {
        few = omega arith;
        ids = λ i lt. absurd (omega (arith, lt));
        boot = omega arith;
      }),
    )

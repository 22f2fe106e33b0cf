-- ===== src/Kern/Paging/Checks.antt =====
-- What `user_mem_check` decides.
use mathlib.Core.Path.{subst}
use sisop_mendez.Base.{
  ==_iff, Bool-cases, List, arith, false, if◌then◌else◌, inl, inr, ltb, refl, some, suc, zero, ℕ,
  ◌%◌, ◌*◌, ◌+◌, ◌-◌, ◌/◌, ◌<◌, ◌==◌, ◌^◌, ◌≡◌, ◌≤◌,
}
use sisop_mendez.Kern.Pages.{Pages, pgsize, round_down, round_up, utop}
use sisop_mendez.Kern.Paging.{
  Checked, accessible, allows, check_next, check_pages, check_panics, fault_at, is_allowed,
  table_entry, user_mem_check, walk_to,
}
use sisop_mendez.Kern.Paging.Masks.{Grants, Grants-allows, allows-Grants, allows-zero}
use sisop_mendez.Kern.Paging.Space.{entry, vpages}
use sisop_mendez.Kern.Paging.Steps.{IsPaged}
use sisop_mendez.Kern.Types.{word}

-- Each round of the loop tests the entry of its page.
round-entry :
    (p : Pages) (g perm v : ℕ) (l : List ℕ)
    → IsPaged p g l
    → v < vpages
    → is_allowed p perm (walk_to p g (v * 4096)) ≡ some (allows (entry p.frames g v) perm)
unfolding is_allowed table_entry entry
round-entry p g perm v l paged h =
    let i : v * 4096 / 2 ^ 22 % 1024 ≡ v / 1024 = omega arith in
    let j : v * 4096 / 2 ^ 12 % 1024 ≡ v % 1024 = omega arith in
    rw (i, j) (ground (arith, paged.tables (v / 1024) (omega arith), allows-zero perm))

-- The pages from `a` up to `b` allow the access.
abbrev pub Allowed : (ℕ → ℕ → ℕ) → ℕ → ℕ → ℕ → ℕ → Type 0
Allowed frames g perm a b = (u : ℕ) → a ≤ u → u < b → Grants (entry frames g u) perm

-- What a check of the pages from `a` up to `b` has found: all allow the access, or the first that
-- does not is `v`, and the address is the first of the range in it.
abbrev pub Verdict : (ℕ → ℕ → ℕ) → ℕ → ℕ → ℕ → ℕ → ℕ → Checked → Type 0
Verdict frames g perm va a b accessible = Allowed frames g perm a b
Verdict frames g perm va a b (fault_at x) =
    (v : ℕ) × (a ≤ v)
    × (v < b)
    × (x ≡ (if ltb va (v * 4096) then v * 4096 else va))
    × ¬ Grants (entry frames g v) perm
    × Allowed frames g perm a v
Verdict frames g perm va a b check_panics = ⊥

Allowed-step :
    (frames : ℕ → ℕ → ℕ) (g perm a b : ℕ)
    → Grants (entry frames g a) perm
    → Allowed frames g perm (suc a) b
    → Allowed frames g perm a b
Allowed-step frames g perm a b ok rest u h h' = elim (Bool-cases (u == a)) [
  | inl here ↦ rw ((==_iff u a).0 here) ok
  | inr other ↦ rest u (ground arith) h'
]

Verdict-step :
    (frames : ℕ → ℕ → ℕ) (g perm va a b : ℕ) (r : Checked)
    → Grants (entry frames g a) perm
    → Verdict frames g perm va (suc a) b r
    → Verdict frames g perm va a b r
Verdict-step frames g perm va a b accessible ok rest = Allowed-step frames g perm a b ok rest
Verdict-step frames g perm va a b (fault_at x) ok (v, h, h', e, bad, rest) =
    (v, omega (arith, h), h', e, bad, Allowed-step frames g perm a v ok rest)
Verdict-step frames g perm va a b check_panics ok none' = none'

check_pages-Verdict :
    (p : Pages) (g perm va a n : ℕ) (l : List ℕ)
    → IsPaged p g l
    → a + n ≤ vpages
    → Verdict p.frames g perm va a (a + n) (check_pages p g perm va (a * 4096) n)
unfolding check_pages check_next
check_pages-Verdict p g perm va a zero l paged h = λ u k k'. absurd (omega arith)
check_pages-Verdict p g perm va a (suc n) l paged h =
    let allowed = round-entry p g perm a l paged (omega arith) in
    elim (Bool-cases (allows (entry p.frames g a) perm)) [
      | inl ok ↦
          let next : a * 4096 + 4096 ≡ suc a * 4096 = omega arith in
          let length' : a + suc n ≡ suc a + n = omega arith in
          rw (allowed, ok, next, length')
            (Verdict-step p.frames g perm va a (suc a + n)
              (check_pages p g perm va (suc a * 4096) n)
              (allows-Grants (entry p.frames g a) perm ok)
              (check_pages-Verdict p g perm va (suc a) n l paged (omega arith)))
      | inr bad ↦
          rw (allowed, bad)
            (
              a,
              omega arith,
              omega arith,
              refl,
              λ grants. cc (Grants-allows (entry p.frames g a) perm grants, bad),
              λ u k k'. absurd (omega arith),
            )
    ]

-- Over page tables in order, for a range that ends at UTOP or below, `user_mem_check` never
-- panics: if it finds the range accessible, every page from the first up to the rounded end has
-- an entry with PTE_P and every bit of the permissions, whichever of the 32 these are; otherwise
-- it gives the first address of the range in the first page whose entry lacks one of them.
pub user_mem_check-Verdict :
    (p : Pages) (g va len perm : ℕ) (l : List ℕ)
    → IsPaged p g l
    → va + len ≤ utop
    → Verdict p.frames g perm va
        (va / 4096)
        ((va + len + 4095) / 4096)
        (user_mem_check p g va len perm)
unfolding user_mem_check
user_mem_check-Verdict p g va len perm l paged h =
    let n : ℕ = (va + len + 4095) / 4096 - va / 4096 in
    let end' : va / 4096 + n ≡ (va + len + 4095) / 4096 = omega arith in
    let low : ltb utop (round_up ((va + len) % word)) ≡ false = ground arith in
    let rounds : (round_up ((va + len) % word) - round_down va) / pgsize ≡ n = omega arith in
    rw (low, rounds)
      (subst
        (λ b. Verdict p.frames g perm va (va / 4096) b (check_pages p g perm va (round_down va) n))
        end' (check_pages-Verdict p g perm va (va / 4096) n l paged (omega arith)))

-- A range that goes on past 2^32 and ends on a page below the first is accessible, whatever the
-- page tables are: its end wraps around, and the loop has no page to check.
pub user_mem_check_wraps :
    (p : Pages) (g va len perm : ℕ)
    → va < word
    → word ≤ va + len
    → va + len ≤ word + round_down va
    → va + len ≤ word + utop
    → user_mem_check p g va len perm ≡ accessible
unfolding user_mem_check check_pages
user_mem_check_wraps p g va len perm h wraps below small =
    let hi : round_up ((va + len) % word) ≤ round_down va = omega arith in
    let low : ltb utop (round_up ((va + len) % word)) ≡ false = ground arith in
    let none' : (round_up ((va + len) % word) - round_down va) / pgsize ≡ 0 = omega arith in
    rw (low, none') refl

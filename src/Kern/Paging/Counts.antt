-- ===== src/Kern/Paging/Counts.antt =====
-- How many numbers below a bound pass a test.
use sisop_mendez.Base.{
  ==_iff, Bool, Bool-cases, ap, arith, false, inl, inr, refl, suc, true, zero, ℕ, ◌+◌, ◌<◌, ◌==◌,
  ◌≡◌, ◌≢◌,
}

abbrev pub one_if : Bool → ℕ
one_if true = 1
one_if false = 0

unfoldable pub count : (ℕ → Bool) → ℕ → ℕ
count test zero = 0
count test (suc n) = one_if (test n) + count test n

pub count_cong : (f g : ℕ → Bool) (n : ℕ) → ((v : ℕ) → v < n → f v ≡ g v) → count f n ≡ count g n
unfolding count
count_cong f g zero same = refl
count_cong f g (suc n) same =
    rw (same n (omega arith), count_cong f g n (λ v h. same v (omega arith))) refl

-- The tests differ at `k` only.
pub count_change :
    (f g : ℕ → Bool) (n k : ℕ)
    → k < n
    → ((v : ℕ) → v < n → v ≢ k → f v ≡ g v)
    → count f n + one_if (g k) ≡ count g n + one_if (f k)
unfolding count
count_change f g zero k h same = absurd (omega arith)
count_change f g (suc n) k h same = elim (Bool-cases (k == n)) [
  | inl last ↦
      let e = (==_iff k n).0 last in
      let rest = count_cong f g n (λ v l. same v (omega arith) (omega arith)) in
      rw (e, rest) (omega arith)
  | inr other ↦
      let lower : k < n = ground arith in
      let at_n = ap one_if (same n (omega arith) (omega arith)) in
      omega (arith, at_n, count_change f g n k lower (λ v l. same v (omega arith)))
]

pub count_zero : (f : ℕ → Bool) (n v : ℕ) → count f n ≡ 0 → v < n → f v ≡ false
unfolding count
count_zero f zero v h l = absurd (omega arith)
count_zero f (suc n) v h l = elim (Bool-cases (f v)) [
  | inr no_v ↦ no_v
  | inl hit ↦ elim (Bool-cases (v == n)) [
    | inl last ↦
        let e = (==_iff v n).0 last in absurd (omega (arith, ap one_if (ap f e), ap one_if hit))
    | inr other ↦ count_zero f n v (omega arith) (ground arith)
  ]
]

pub count_none : (f : ℕ → Bool) (n : ℕ) → ((v : ℕ) → v < n → f v ≡ false) → count f n ≡ 0
unfolding count
count_none f zero miss = refl
count_none f (suc n) miss =
    rw (miss n (omega arith), count_none f n (λ v h. miss v (omega arith))) refl

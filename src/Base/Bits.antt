-- ===== src/Base/Bits.antt =====
-- Finite checks: a test that evaluates to true at each number of a range holds there.
use Prim.Native.Nat.{ℕ, zero, suc, ◌<◌}
use mathlib.Core.Path.{◌≡◌}
use mathlib.Core.Logic.{inl, inr}
use mathlib.Core.Bool.{Bool, true, false}
use native.Mathlib.Omega.{arith}
use sisop_mendez.Base.Tests.{Nat-cases, if◌then◌else◌}

unfoldable pub passes : (ℕ → Bool) → ℕ → Bool
passes test zero = true
passes test (suc i) = let others = passes test i in if test i then others else false

pub passes-at :
    (test : ℕ → Bool) (size : ℕ) → passes test size ≡ true → (i : ℕ) → i < size → test i ≡ true
unfolding passes
passes-at test zero ok i lt = absurd (omega arith)
passes-at test (suc size) ok i lt =
    let earlier : passes test size ≡ true = ground (arith, ok) in
    elim (Nat-cases i size) [
      | inl less ↦ passes-at test size earlier i less
      | inr ge ↦ (let last : i ≡ size = omega arith in rw last (ground (arith, ok)))
    ]

-- The same over pairs.
pub passes_pairs :
    (test : ℕ → ℕ → Bool) (rows columns : ℕ)
    → passes (λ i. passes (test i) columns) rows ≡ true
    → (i j : ℕ) → i < rows
    → j < columns
    → test i j ≡ true
passes_pairs test rows columns ok i j hi hj =
    passes-at (test i) columns (passes-at (λ k. passes (test k) columns) rows ok i hi) j hj

-- ===== src/Tests/Fork.antt =====
-- The exercises with fork on concrete inputs.
use sisop_mendez.Base.{List, [], arith, refl, some, ℕ, ◌∷◌, ◌≡◌}
use sisop_mendez.Fork.Primes.{main, success}
use sisop_mendez.Fork.Primes.Sieve.{all_well, chain, has_no_divisor, main-chain, primes}
use sisop_mendez.Fork.Xargs.{all_done, chop, xargs}
use sisop_mendez.Fork.Xargs.Batches.{always, batches, commands, xargs-batches}

main-chain_example : main all_well (some 12) ≡ some (success, chain (primes 2 11))
main-chain_example = main-chain 12 (omega arith)

primes_run : primes 2 11 ≡ 2 ∷ 3 ∷ 5 ∷ 7 ∷ 11 ∷ []
unfolding primes has_no_divisor
primes_run = refl

abbrev lines : List (List ℕ)
lines = (b'a' ∷ 10 ∷ []) ∷ (b'b' ∷ 10 ∷ []) ∷ (b'c' ∷ 10 ∷ []) ∷ (b'd' ∷ 10 ∷ []) ∷ (b'e' ∷ []) ∷ []

xargs-batches_example :
    xargs always (some (b'x' ∷ [])) lines ≡ some (all_done (commands (b'x' ∷ []) (batches lines)))
xargs-batches_example = xargs-batches (b'x' ∷ []) lines

batches_run :
    batches lines
    ≡ ((b'a' ∷ []) ∷ (b'b' ∷ []) ∷ (b'c' ∷ []) ∷ (b'd' ∷ []) ∷ []) ∷ ((b'e' ∷ []) ∷ []) ∷ []
unfolding batches chop
batches_run = refl

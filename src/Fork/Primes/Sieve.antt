-- ===== src/Fork/Primes/Sieve.antt =====
-- The chain of processes prints the primes.
use native.Mathlib.Nat.{dvd_of_mod-eq-zero, dvd_trans, mod-eq-zero_of_dvd}
use sisop_mendez.Base.{
  ==_iff, Bool, Bool-cases, List, [], ap, arith, false, if◌then◌else◌, inl, inr, leb, length, ltb,
  none, not, refl, some, suc, sym, true, zero, ℕ, ◌%◌, ◌&&◌, ◌+◌, ◌-◌, ◌<◌, ◌==◌, ◌||◌, ◌∙◌, ◌∷◌,
  ◌≡◌, ◌≤◌,
}
use sisop_mendez.Fork.Primes.{
  Answers, Process, int_max, main, receive_numbers, send_numbers, send_primes_candidates, success,
}

-- No number from 2 to before `k` divides `m`.
unfoldable pub has_no_divisor : ℕ → ℕ → Bool
has_no_divisor zero m = true
has_no_divisor (suc k) m = has_no_divisor k m && (ltb k 2 || not (m % k == 0))

-- The primes among the `n` numbers from `p` on.
unfoldable pub primes : ℕ → ℕ → List ℕ
primes p zero = []
primes p (suc n) = let rest = primes (p + 1) n in if has_no_divisor p p then p ∷ rest else rest

-- Those of the `n` numbers from `p` on that no number from 2 to before `k` divides.
unfoldable rough : ℕ → ℕ → ℕ → List ℕ
rough k p zero = []
rough k p (suc n) = let rest = rough k (p + 1) n in if has_no_divisor k p then p ∷ rest else rest

abbrev pub all_well : ℕ → Answers
all_well d = record { pipe_ok = true; fork_ok = true; write_ok = λ n. true }

divides_trans : (m b d : ℕ) → m % b ≡ 0 → b % d ≡ 0 → m % d ≡ 0
divides_trans m b d h k =
    mod-eq-zero_of_dvd _ (dvd_trans _ (dvd_of_mod-eq-zero _ k) (dvd_of_mod-eq-zero _ h))

-- A multiple of `b` without small divisors shows that `b` has none.
has_no_divisor-of_multiple :
    (k m b : ℕ) → m % b ≡ 0 → has_no_divisor k m ≡ true → has_no_divisor k b ≡ true
unfolding has_no_divisor
has_no_divisor-of_multiple zero m b e h = refl
has_no_divisor-of_multiple (suc k) m b e h =
    let low : has_no_divisor k m ≡ true = ground (arith, h) in
    let rest = has_no_divisor-of_multiple k m b e low in
    elim (Bool-cases (ltb k 2)) [
      | inl l ↦ rw (rest, l) refl
      | inr g ↦
          (let ne : (b % k == 0) ≡ false = elim (Bool-cases (b % k == 0)) [
            | inl z ↦
                (let dm : m % k ≡ 0 = divides_trans m b k e ((==_iff _ _).0 z) in
                  absurd (ground (arith, h, g, dm)))
            | inr q ↦ q
          ] in
            rw (rest, g, ne) refl)
    ]

-- With `m` numbers to go, and more rounds than that, the loop ends.
sent_numbers :
    (fuel p n m : ℕ)
    → n < int_max
    → p + m ≡ n + 1
    → m < fuel
    → send_numbers fuel (λ i. true) p n ≡ some (rough 2 p m)
unfolding send_numbers rough has_no_divisor
sent_numbers zero p n m small e enough = absurd (omega arith)
sent_numbers (suc fuel) p n zero small e enough =
    let over : leb p n ≡ false = ground arith in rw over refl
sent_numbers (suc fuel) p n (suc m) small e enough =
    let more : leb p n ≡ true = ground arith in
    let below : (p == int_max) ≡ false = ground arith in
    rw (more, below, sent_numbers fuel (p + 1) n m small (omega arith) (omega arith)) refl

-- For 0 there is no number to send.
sent_from_two :
    (n : ℕ) → n < int_max → send_numbers (n + 1) (λ i. true) 2 n ≡ some (rough 2 2 (n - 1))
unfolding send_numbers rough
sent_from_two zero small = refl
sent_from_two (suc n) small =
    let all : suc n - 1 ≡ n = omega arith in
    rw all (sent_numbers (suc n + 1) 2 (suc n) n small (omega arith) (omega arith))

-- The filter of the process that prints `b`.
candidates-rough :
    (b p n : ℕ)
    → 2 ≤ b
    → send_primes_candidates (λ i. true) b (rough b p n) ≡ (rough (suc b) p n, true)
unfolding send_primes_candidates rough has_no_divisor
candidates-rough b p zero h = refl
candidates-rough b p (suc n) h =
    let rest = candidates-rough b (p + 1) n h in
    let large : ltb b 2 ≡ false = ground arith in
    elim (Bool-cases (has_no_divisor b p)) [
      | inl e ↦ elim (Bool-cases (p % b == 0)) [
        | inl dv ↦ rw (e, dv, large, rest) refl
        | inr nd ↦ rw (e, nd, large, rest) refl
      ]
      | inr e ↦ rw (e, rest) refl
    ]

-- Where `b` is no prime, its multiples are gone already.
rough-skip : (b p n : ℕ) → 2 ≤ b → has_no_divisor b b ≡ false → rough b p n ≡ rough (suc b) p n
unfolding rough has_no_divisor
rough-skip b p zero h c = refl
rough-skip b p (suc n) h c =
    let rest = rough-skip b (p + 1) n h c in
    let large : ltb b 2 ≡ false = ground arith in
    elim (Bool-cases (has_no_divisor b p)) [
      | inl e ↦ elim (Bool-cases (p % b == 0)) [
        | inl dv ↦
            (let t : has_no_divisor b b ≡ true =
                has_no_divisor-of_multiple b p b ((==_iff _ _).0 dv) e in
              absurd (ground (arith, t, c)))
        | inr nd ↦ rw (e, nd, large, rest) refl
      ]
      | inr e ↦ rw (e, rest) refl
    ]

length-candidates :
    (b : ℕ) (ns : List ℕ) → length (send_primes_candidates (λ i. true) b ns).0 ≤ length ns
unfolding send_primes_candidates
length-candidates b [] = omega arith
length-candidates b (x ∷ ns) = let rest = length-candidates b ns in ground (arith, rest)

-- A process for each prime, and one that finds its pipe empty.
unfoldable pub chain : List ℕ → List Process
chain [] = record { printed = none; code = success } ∷ []
chain (p ∷ ps) = record { printed = some p; code = success } ∷ chain ps

rough-one : (b p n : ℕ) → rough (suc b) p n ≡ rough (b + 1) p n
rough-one b p n = ap (λ c. rough c p n) (omega arith)

rough-first : (b n : ℕ) → has_no_divisor b b ≡ true → rough b b (suc n) ≡ b ∷ rough b (b + 1) n
unfolding rough
rough-first b n e = rw e refl

rough-none :
    (b n : ℕ) → 2 ≤ b → has_no_divisor b b ≡ false → rough b b (suc n) ≡ rough (b + 1) (b + 1) n
unfolding rough
rough-none b n h e = rw e (rough-skip b (b + 1) n h e ∙ rough-one b (b + 1) n)

receive_numbers-chain :
    (fuel depth b n : ℕ) (ns : List ℕ)
    → ns ≡ rough b b n
    → 2 ≤ b
    → length ns < fuel
    → receive_numbers fuel all_well depth ns ≡ chain (primes b n)
unfolding receive_numbers chain primes rough
receive_numbers-chain zero depth b n ns q h lt = absurd (omega arith)
receive_numbers-chain (suc fuel) depth b zero ns q h lt = rw (q, rough) refl
receive_numbers-chain (suc fuel) depth b (suc n) ns q h lt =
    elim (Bool-cases (has_no_divisor b b)) [
      | inl e ↦
          let first : ns ≡ b ∷ rough b (b + 1) n = q ∙ rough-first b n e in
          let sent : send_primes_candidates (λ i. true) b (rough b (b + 1) n)
              ≡ (rough (suc b) (b + 1) n, true) =
            candidates-rough b (b + 1) n h in
          let shorter : length (rough (suc b) (b + 1) n) ≤ length (rough b (b + 1) n) =
            (let l = length-candidates b (rough b (b + 1) n) in rw (sym (ap (λ r. r.0) sent)) l) in
          let rest =
            receive_numbers-chain fuel (suc depth) (b + 1) n (rough (suc b) (b + 1) n)
              (rough-one b (b + 1) n) (omega arith) (omega (arith, shorter, lt, ap length first)) in
          rw (first, sent, e) (ap (◌∷◌ (record { printed = some b; code = success })) rest)
      | inr e ↦ rw e (
          receive_numbers-chain (suc fuel) depth (b + 1) n ns (q ∙ rough-none b n h e) (omega arith)
            lt)
    ]

-- If every call succeeds, `main` of primes.c with an argument `n` from 0 to below the largest
-- `int` ends, and starts one process for each prime from 2 to `n`, in order, each of which
-- prints its prime, and one that finds its pipe empty; all exit with SUCCESS.
pub main-chain :
    (n : ℕ) → n < int_max → main all_well (some n) ≡ some (success, chain (primes 2 (n - 1)))
unfolding main
main-chain n small =
    let sent = rough 2 2 (n - 1) in
    rw (sent_from_two n small) (
      ap (λ c. some (success, c))
        (receive_numbers-chain (length sent + 1) 1 2 (n - 1) sent refl (omega arith) (omega arith)))

-- ===== src/Kern/Sched/Choice.antt =====
-- What the loop of the scheduler finds.
use sisop_mendez.Base.{
  ==_iff, Bool, Bool-cases, Nat-cases, Option, arith, false, inl, inr, none, refl, some, suc, true,
  zero, ℕ, ◌%◌, ◌+◌, ◌-◌, ◌<◌, ◌==◌, ◌≡◌, ◌≢◌, ◌≤◌,
}
use sisop_mendez.Kern.Sched.{search}
use sisop_mendez.Kern.Types.{Env, Envs, nenv}

-- How far behind `start` the loop comes to `i`.
abbrev pub distance : ℕ → ℕ → ℕ
distance start i = (i + nenv - start) % nenv

-- No environment that the loop meets before `i` passes the test.
abbrev pub NoneBefore : (Env → Bool) → Envs → ℕ → ℕ → Type 0
NoneBefore test envs start d = (m : ℕ) → m < nenv → distance start m < d → test (envs m) ≡ false

-- The first environment that passes the test, in circular order from `start`, or that none does.
abbrev pub IsFirst : (Env → Bool) → Envs → ℕ → Option ℕ → Type 0
IsFirst test envs start none = (m : ℕ) → m < nenv → test (envs m) ≡ false
IsFirst test envs start (some j) =
    (j < nenv) × (test (envs j) ≡ true) × NoneBefore test envs start (distance start j)

last-distance :
    (start i : ℕ) → start < nenv → i < nenv → (i + 1) % nenv ≡ start → distance start i ≡ nenv - 1
last-distance start i h h' e = omega arith

next-distance :
    (start i : ℕ)
    → start < nenv
    → i < nenv
    → (i + 1) % nenv ≢ start
    → distance start ((i + 1) % nenv) ≡ distance start i + 1
next-distance start i h h' e = omega arith

pub distance_injective :
    (start i m : ℕ)
    → start < nenv
    → i < nenv
    → m < nenv
    → distance start m ≡ distance start i
    → m ≡ i
distance_injective start i m h h' h'' e = omega arith

NoneBefore-suc :
    (test : Env → Bool) (envs : Envs) (start i : ℕ)
    → start < nenv
    → i < nenv
    → NoneBefore test envs start (distance start i)
    → test (envs i) ≡ false
    → NoneBefore test envs start (distance start i + 1)
NoneBefore-suc test envs start i h h' before fails m hm d =
    elim (Nat-cases (distance start m) (distance start i)) [
      | inl less ↦ before m hm less
      | inr more ↦ rw (distance_injective start i m h h' hm (omega arith)) fails
    ]

search-from :
    (test : Env → Bool) (fuel : ℕ) (envs : Envs) (start i : ℕ)
    → start < nenv
    → i < nenv
    → nenv ≤ fuel + distance start i
    → NoneBefore test envs start (distance start i)
    → (r : Option ℕ) × (search test fuel envs start i ≡ some r) × IsFirst test envs start r
unfolding search
search-from test zero envs start i h h' enough before = absurd (omega arith)
search-from test (suc fuel) envs start i h h' enough before = elim (Bool-cases (test (envs i))) [
  | inl passes ↦ (some i, rw passes refl, (h', passes, before))
  | inr fails ↦ elim (Bool-cases (((i + 1) % nenv) == start)) [
    | inl last ↦ (
      none,
      rw (fails, last) refl,
      λ m hm.
          NoneBefore-suc test envs start i h h' before fails m hm
            (omega (arith, last-distance start i h h' ((==_iff _ _).0 last))),
    )
    | inr more ↦
        let step =
          next-distance start i h h' (λ e. cc ((==_iff ((i + 1) % nenv) start).1 e, more)) in
        let (r, eq, first) =
          search-from test fuel envs start ((i + 1) % nenv) h (omega arith) (omega arith)
            (rw step (NoneBefore-suc test envs start i h h' before fails)) in
        (r, rw (fails, more) eq, first)
  ]
]

-- 1024 rounds of the loop are enough from an index inside the array.
pub search-IsFirst :
    (test : Env → Bool) (fuel : ℕ) (envs : Envs) (start : ℕ)
    → start < nenv
    → nenv ≤ fuel
    → (r : Option ℕ) × (search test fuel envs start start ≡ some r) × IsFirst test envs start r
search-IsFirst test fuel envs start h enough =
    search-from test fuel envs start start h h (omega arith) (λ m hm d. absurd (omega arith))

-- From index 1024 it never returns to its start.
pub search-endless :
    (test : Env → Bool) (fuel : ℕ) (envs : Envs) (i : ℕ)
    → i ≤ nenv
    → ((m : ℕ) → m ≤ nenv → test (envs m) ≡ false)
    → search test fuel envs nenv i ≡ none
unfolding search
search-endless test zero envs i h fails = refl
search-endless test (suc fuel) envs i h fails =
    let more : (((i + 1) % nenv) == nenv) ≡ false = ground arith in
    rw (fails i h, more) (search-endless test fuel envs ((i + 1) % nenv) (omega arith) fails)

-- ===== src/Kern/Locks/Exclusion.antt =====
-- The kernel lock excludes, whatever the CPUs' order.
use native.Mathlib.Decide.{ℕ_discrete}
use sisop_mendez.Base.{
  ==_iff, Bool, Bool-cases, List, [], ap, arith, false, inl, inr, none, refl, some, sym, true, ℕ,
  ◌==◌, ◌∙◌, ◌∷◌, ◌≡◌, ◌≢◌,
}
use sisop_mendez.Kern.Locks.{
  Machine, Place, Spinlock, acquired, holding, inside, is_cpu, move_to, next_access, outside,
  panicked, releasing, run_schedule, spinning, step,
}

abbrev pub owns : Place → Bool
owns acquired = true
owns inside = true
owns releasing = true
owns _ = false

abbrev pub is_inside : Place → Bool
is_inside inside = true
is_inside _ = false

abbrev pub is_panicked : Place → Bool
is_panicked panicked = true
is_panicked _ = false

-- No CPU is in a panic, one at most is behind `spin_lock`, and the lock says which.
pub record IsExclusive (m : Machine) : Type 0 where
  pub calm : (i : ℕ) → is_panicked (m.places i) ≡ false
  pub taken : (i : ℕ) → owns (m.places i) ≡ true → m.lock.locked ≢ 0
  pub single : (i j : ℕ) → owns (m.places i) ≡ true → owns (m.places j) ≡ true → i ≡ j
  pub marked : (i : ℕ) → is_cpu m.lock.cpu i ≡ is_inside (m.places i)

move_self : (places : ℕ → Place) (i : ℕ) (p : Place) → move_to places i p i ≡ p
unfolding move_to
move_self places i p = ground arith

move_other : (places : ℕ → Place) (i j : ℕ) (p : Place) → j ≢ i → move_to places i p j ≡ places j
unfolding move_to
move_other places i j p ne = ground (arith, ne)

inside-owns : (p : Place) → owns p ≡ false → is_inside p ≡ false
inside-owns outside h = refl
inside-owns spinning h = refl
inside-owns acquired h = refl
inside-owns inside h = absurd (cc)
inside-owns releasing h = refl
inside-owns panicked h = refl

module _ (m : Machine) (i : ℕ) (h : IsExclusive m) where
  alone : owns (m.places i) ≡ true → (j : ℕ) → j ≢ i → owns (m.places j) ≡ false
  alone own j ne = elim (Bool-cases (owns (m.places j))) [
    | inl other ↦ absurd (ne (h.single j i other own))
    | inr free ↦ free
  ]

  -- The CPU `i` moves to `p`, and the lock becomes `lk`.
  moved-IsExclusive :
      (lk : Spinlock) (p : Place)
      → is_panicked p ≡ false
      → (owns p ≡ true → lk.locked ≢ 0)
      → ((j : ℕ) → j ≢ i → owns (m.places j) ≡ true → lk.locked ≢ 0)
      → (owns p ≡ true → (j : ℕ) → j ≢ i → owns (m.places j) ≡ false)
      → is_cpu lk.cpu i ≡ is_inside p
      → ((j : ℕ) → j ≢ i → is_cpu lk.cpu j ≡ is_inside (m.places j))
      → IsExclusive (record { lock = lk; places = move_to m.places i p })
  moved-IsExclusive lk p quiet own others only mark marks = record {
    calm = λ j. elim (ℕ_discrete j i) [
      | yes e ↦ rw (e, move_self m.places i p) quiet
      | no ne ↦ rw (move_other m.places i j p ne) (h.calm j)
    ];
    taken = λ j. elim (ℕ_discrete j i) [
      | yes e ↦ rw (e, move_self m.places i p) own
      | no ne ↦ rw (move_other m.places i j p ne) (others j ne)
    ];
    single = λ j k. elim (ℕ_discrete j i) [
      | yes e ↦ elim (ℕ_discrete k i) [
        | yes e' ↦ λ a b. e ∙ sym e'
        | no ne' ↦
            rw (e, move_self m.places i p, move_other m.places i k p ne')
              (λ a b. (let c = only a k ne' in absurd (cc)))
      ]
      | no ne ↦ elim (ℕ_discrete k i) [
        | yes e' ↦
            rw (e', move_self m.places i p, move_other m.places i j p ne)
              (λ a b. (let c = only b j ne in absurd (cc)))
        | no ne' ↦ rw (move_other m.places i j p ne, move_other m.places i k p ne') (h.single j k)
      ]
    ];
    marked = λ j. elim (ℕ_discrete j i) [
      | yes e ↦ rw (e, move_self m.places i p) mark
      | no ne ↦ rw (move_other m.places i j p ne) (marks j ne)
    ];
  }

  next_access-IsExclusive : (p : Place) → m.places i ≡ p → IsExclusive (next_access m i p)
  unfolding next_access is_cpu
  next_access-IsExclusive outside e =
      let mark : is_cpu m.lock.cpu i ≡ false = h.marked i ∙ ap is_inside e in
      let free : holding m.lock i ≡ false = ground (arith, mark) in
      rw free (
        moved-IsExclusive m.lock spinning refl (λ a. absurd (cc)) (λ j ne. h.taken j)
          (λ a. absurd (cc)) mark (λ j ne. h.marked j))
  next_access-IsExclusive spinning e =
      let mark : is_cpu m.lock.cpu i ≡ false = h.marked i ∙ ap is_inside e in
      elim (Bool-cases (m.lock.locked == 0)) [
        | inl z ↦
            let zero' : m.lock.locked ≡ 0 = (==_iff _ _).0 z in
            rw z (
              moved-IsExclusive (record (m.lock) { locked = 1 }) acquired refl (λ a. omega arith)
                (λ j ne a. omega arith)
                (λ a j ne. elim (Bool-cases (owns (m.places j))) [
                  | inl o ↦ absurd (h.taken j o zero')
                  | inr f ↦ f
                ])
                mark (λ j ne. h.marked j))
        | inr nz ↦ rw nz (
            moved-IsExclusive (record (m.lock) { locked = 1 }) spinning refl (λ a. absurd (cc))
              (λ j ne a. omega arith) (λ a. absurd (cc)) mark (λ j ne. h.marked j))
      ]
  next_access-IsExclusive acquired e =
      let own : owns (m.places i) ≡ true = ap owns e in
      moved-IsExclusive (record (m.lock) { cpu = some i }) inside refl (λ a. h.taken i own)
        (λ j ne. h.taken j) (λ a. alone own) (ground arith)
        (λ j ne.
          (let off : (i == j) ≡ false = ground (arith, ne) in
            off ∙ sym (inside-owns (m.places j) (alone own j ne))))
  next_access-IsExclusive inside e =
      let own : owns (m.places i) ≡ true = ap owns e in
      let mark : is_cpu m.lock.cpu i ≡ true = h.marked i ∙ ap is_inside e in
      let held : holding m.lock i ≡ true = ground (arith, mark, h.taken i own) in
      rw held (
        moved-IsExclusive (record (m.lock) { cpu = none }) releasing refl (λ a. h.taken i own)
          (λ j ne. h.taken j) (λ a. alone own) refl
          (λ j ne. sym (inside-owns (m.places j) (alone own j ne))))
  next_access-IsExclusive releasing e =
      let own : owns (m.places i) ≡ true = ap owns e in
      moved-IsExclusive (record (m.lock) { locked = 0 }) outside refl (λ a. absurd (cc))
        (λ j ne a. (let f = alone own j ne in absurd (cc))) (λ a. absurd (cc))
        (h.marked i ∙ ap is_inside e) (λ j ne. h.marked j)
  next_access-IsExclusive panicked e =
      (let calm = h.calm i ∙ refl in let p = ap is_panicked e in absurd (cc))

-- From a machine in which no CPU is in a panic, at most one is behind `spin_lock`, and the lock says
-- which, every schedule leads to such a machine: `spin_lock` lets no second CPU through before the
-- first has freed the lock, and neither check of `holding` ever fails.
pub run_schedule-IsExclusive :
    (m : Machine) (is : List ℕ) → IsExclusive m → IsExclusive (run_schedule m is)
unfolding run_schedule
run_schedule-IsExclusive m [] h = h
run_schedule-IsExclusive m (i ∷ is) h =
    run_schedule-IsExclusive (step m i) is (next_access-IsExclusive m i h (m.places i) refl)

-- ===== src/Kern/Debug/Backwards.antt =====
-- The loops of `stab_binsearch` that go back to a stab of the type.
use sisop_mendez.Base.{
  ==_iff, Bool-cases, Nat-cases, Option, arith, false, inl, inr, none, refl, some, suc, zero, ℕ,
  ◌+◌, ◌<◌, ◌==◌, ◌≡◌, ◌≢◌, ◌≤◌,
}
use sisop_mendez.Kern.Debug.{Stabs, rightmost, search_back}

-- No stab of the type from `a` to before `b`.
abbrev pub NoStab : Stabs → ℕ → ℕ → ℕ → Type 0
NoStab stabs type a b = (j : ℕ) → a ≤ j → j < b → (stabs j).n_type ≢ type

pub data Last (stabs : Stabs) (type l n : ℕ) : Option ℕ → Type 0 where
  nothing : NoStab stabs type l (l + n) → Last stabs type l n none
  just :
      (m : ℕ)
      → l ≤ m
      → m < l + n
      → (stabs m).n_type ≡ type
      → NoStab stabs type (m + 1) (l + n)
      → Last stabs type l n (some m)

module _ (stabs : Stabs) (type : ℕ) where
  pub join : (a b c : ℕ) → NoStab stabs type a b → NoStab stabs type b c → NoStab stabs type a c
  join a b c h k j lo hi = elim (Nat-cases j b) [ inl lt ↦ h j lo lt | inr ge ↦ k j ge hi ]

  pub one_more :
      (a b : ℕ)
      → ((stabs b).n_type == type) ≡ false
      → NoStab stabs type a b
      → NoStab stabs type a (suc b)
  one_more a b e h j lo hi = elim (Nat-cases j b) [
    | inl lt ↦ h j lo lt
    | inr ge ↦ let at : j ≡ b = omega arith in rw at (λ t. ground (arith, e, t))
  ]

  pub wider : (a b c : ℕ) → b ≡ c → NoStab stabs type a b → NoStab stabs type a c
  wider a b c e h j lo hi = h j lo (omega arith)

  pub search_back-Last : (l n : ℕ) → Last stabs type l n (search_back stabs type l n)
  unfolding search_back
  search_back-Last l zero = nothing (λ j lo hi. absurd (omega arith))
  search_back-Last l (suc n) = elim (Bool-cases ((stabs (l + n)).n_type == type)) [
    | inl e ↦ rw e (
        just (l + n) (omega arith) (omega arith) ((==_iff _ _).0 e)
          (λ j lo hi. absurd (omega arith)))
    | inr e ↦ rw e (longer l n (search_back stabs type l n) e (search_back-Last l n))
  ]
    where
      longer :
          (l n : ℕ) (o : Option ℕ)
          → ((stabs (l + n)).n_type == type) ≡ false
          → Last stabs type l n o
          → Last stabs type l (suc n) o
      longer l n none e (nothing h) =
          nothing (wider l (suc (l + n)) (l + suc n) (omega arith) (one_more l (l + n) e h))
      longer l n (some m) e (just _ lo hi t h) =
          just m lo (omega arith) t
            (wider (m + 1) (suc (l + n)) (l + suc n) (omega arith) (one_more (m + 1) (l + n) e h))

  pub rightmost-none :
      (left n : ℕ)
      → NoStab stabs type (left + 1) (left + 1 + n)
      → rightmost stabs type left n ≡ left
  unfolding rightmost
  rightmost-none left zero h = refl
  rightmost-none left (suc n) h =
      let e : ((stabs (left + suc n)).n_type == type) ≡ false =
        ground (arith, h (left + suc n) (omega arith) (omega arith)) in
      rw e (rightmost-none left n (λ j lo hi. h j lo (omega arith)))

-- ===== src/Kern/Debug/Brackets.antt =====
-- `stab_binsearch` brackets the address, if no stab of the type is one byte behind it.
use sisop_mendez.Base.{
  Nat-cases, arith, false, inl, inr, leb, refl, some, ℕ, ◌*◌, ◌+◌, ◌-◌, ◌<◌, ◌^◌, ◌≡◌, ◌≤◌, ◌⊎◌,
}
use sisop_mendez.Kern.Debug.{Region, Search, Stabs, before, bracket, rightmost, stab_binsearch}
use sisop_mendez.Kern.Debug.Backwards.{NoStab, rightmost-none}
use sisop_mendez.Kern.Debug.Rounds.{
  HasGap, IsSorted, Narrowed, at_stab, bisect-Narrowed, next_stab, no_next, none_yet,
}
use sisop_mendez.Kern.Types.{word}

-- What is found: the last stab of the type at or at_stab the address, and the place of the next stab
-- of the type or the end, one behind `region_right`.
pub record Contains (stabs : Stabs) (type left right addr : ℕ) (g : Region) : Type 0 where
  pub left_in : left ≤ g.region_left
  pub of_type : (stabs g.region_left).n_type ≡ type
  pub at_or_below : (stabs g.region_left).n_value ≤ addr
  pub proper : g.region_left ≤ g.region_right
  pub right_in : g.region_right < right
  pub only : NoStab stabs type (g.region_left + 1) (g.region_right + 1)
  pub next :
      (j : ℕ) → g.region_right < j → j < right → (stabs j).n_type ≡ type → addr < (stabs j).n_value

module _ (stabs : Stabs) (type left right addr : ℕ)
    (sorted : IsSorted stabs type left right addr) where
  behind :
      (r : ℕ)
      → left ≤ r
      → (stabs r).n_type ≡ type
      → addr < (stabs r).n_value
      → (j : ℕ) → r ≤ j
      → j < right
      → (stabs j).n_type ≡ type
      → addr < (stabs j).n_value
  behind r lo t v j ge lt u = elim (Nat-cases r j) [
    | inl less ↦ omega (arith, v, sorted r j lo less lt t u)
    | inr same ↦ let at : j ≡ r = omega arith in rw at v
  ]

  bracket-Contains :
      (s : Search)
      → right < 2 ^ 31
      → Narrowed stabs type left right addr s
      → s.l ≡ s.r
      → Contains stabs type left right addr (bracket stabs type s)
        ⊎ ((j : ℕ) → left ≤ j → j < right → (stabs j).n_type ≡ type → addr < (stabs j).n_value)
  unfolding bracket
  bracket-Contains s fits h e = elim h.left_end [
    | none_yet a k ↦ inr (λ j lo hi t. elim (Nat-cases j s.r) [
      | inl lt ↦ absurd (k j lo (omega arith) t)
      | inr ge ↦ elim h.right_end [
        | no_next b ↦ absurd (omega arith)
        | next_stab b c d v ↦ behind s.r (omega (arith, h.l_in)) d v j ge hi t
      ]
    ])
    | at_stab any lo le lt t v k ↦
        let apart : s.left < s.r = elim h.right_end [
          | no_next c ↦ omega (arith, c, lt)
          | next_stab b c d v' ↦ elim (Nat-cases s.left s.r) [
            | inl less ↦ less
            | inr ge ↦
                (let at : s.r ≡ s.left = omega (arith, e) in
                  let same : (stabs s.r).n_value ≡ (stabs s.left).n_value = rw at refl in
                  absurd (omega (arith, same)))
          ]
        ] in
        let some_behind : leb s.right s.left ≡ false = ground (arith, h.same, apart) in
        let p : rightmost stabs type s.left (s.right - 1 - s.left) ≡ s.left =
          rightmost-none stabs type s.left (s.right - 1 - s.left)
            (λ j a b. k j a (omega (arith, h.same, e))) in
        let q : before s.right + 1 ≡ s.r = omega (arith, h.same, h.r_in) in
        rw (any, some_behind, p)
          (inl (record {
            left_in = lo;
            of_type = t;
            at_or_below = v;
            proper = omega (arith, q);
            right_in = omega (arith, q, h.r_in);
            only = λ j a b. k j a (omega (arith, q, e));
            next = λ j a b u. elim h.right_end [
              | no_next c ↦ absurd (omega (arith, q))
              | next_stab c d t' v' ↦
                  behind s.r (omega (arith, h.l_in)) t' v' j (omega (arith, q)) b u
            ];
          }))
  ]

-- For the `n` stabs from `left` to before `right`, those of the type in increasing order and none of
-- them one byte behind the address, `stab_binsearch` ends: either `region_left` is the last stab of
-- the type at or below the address, and `region_right` is in front of the next stab of the type, or
-- every stab of the type is above the address.
pub stab_binsearch-Contains :
    (stabs : Stabs) (type left right addr : ℕ)
    → left ≤ right
    → right < 2 ^ 31
    → addr + 1 < word
    → IsSorted stabs type left right addr
    → HasGap stabs type left right addr
    → (g : Region) × (stab_binsearch stabs left right type addr ≡ some g)
      × (Contains stabs type left right addr g
          ⊎ ((j : ℕ) → left ≤ j → j < right → (stabs j).n_type ≡ type → addr < (stabs j).n_value))
unfolding stab_binsearch
stab_binsearch-Contains stabs type left right addr le fits small sorted gap =
    let start : Search = record {
      l = left;
      r = right;
      left = left;
      right = right;
      addr = addr;
      any_matches = false;
    } in
    let first : Narrowed stabs type left right addr start = record {
      l_in = omega arith;
      l_r = le;
      r_in = omega arith;
      same = refl;
      left_end = none_yet refl (λ j lo hi. absurd (omega arith));
      right_end = no_next refl;
      searched = inl refl;
    } in
    let (s, e, h, d) =
      bisect-Narrowed stabs type left right addr gap small (2 * (right - left) + 2) start first
        (ground arith) in
    rw (stab_binsearch, e)
      (bracket stabs type s, refl, bracket-Contains stabs type left right addr sorted s fits h d)

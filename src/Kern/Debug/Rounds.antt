-- ===== src/Kern/Debug/Rounds.antt =====
-- The rounds of `stab_binsearch`: each keeps the invariant of the search, and they come to an end.
use sisop_mendez.Base.{
  Bool-cases, Option, arith, if◌then◌else◌, inl, inr, ltb, ltb→lt, none, refl, some, suc, true,
  zero, ℕ, ◌*◌, ◌+◌, ◌-◌, ◌/◌, ◌<◌, ◌==◌, ◌≡◌, ◌≢◌, ◌≤◌, ◌⊎◌,
}
use sisop_mendez.Kern.Debug.{Search, Stabs, bisect, narrow, search_back}
use sisop_mendez.Kern.Debug.Backwards.{Last, NoStab, join, just, nothing, search_back-Last, wider}
use sisop_mendez.Kern.Types.{word}

-- The search from `left` to before `right` for `addr`.
module _ (stabs : Stabs) (type left right addr : ℕ) where
  -- The stabs of the type are in increasing order.
  abbrev pub IsSorted : Type 0
  IsSorted =
      (i j : ℕ)
      → left ≤ i
      → i < j
      → j < right
      → (stabs i).n_type ≡ type
      → (stabs j).n_type ≡ type
      → (stabs i).n_value < (stabs j).n_value

  -- None of them is at the address behind `addr`.
  abbrev pub HasGap : Type 0
  HasGap = (j : ℕ) → left ≤ j → j < right → (stabs j).n_type ≡ type → (stabs j).n_value ≢ addr + 1

  -- The left end while nothing at or at_stab the address was found, and then.
  pub data LeftEnd (s : Search) : Type 0 where
    none_yet : s.left ≡ left → NoStab stabs type left s.l → LeftEnd s
    at_stab :
        s.any_matches ≡ true
        → left ≤ s.left
        → s.left ≤ s.l
        → s.left < right
        → (stabs s.left).n_type ≡ type
        → (stabs s.left).n_value ≤ addr
        → NoStab stabs type (s.left + 1) s.l
        → LeftEnd s

  pub data RightEnd (s : Search) : Type 0 where
    no_next : s.r ≡ right → RightEnd s
    next_stab :
        s.any_matches ≡ true
        → s.r < right
        → (stabs s.r).n_type ≡ type
        → addr < (stabs s.r).n_value
        → RightEnd s

  pub record Narrowed (s : Search) : Type 0 where
    pub l_in : left ≤ s.l
    pub l_r : s.l ≤ s.r
    pub r_in : s.r ≤ right
    pub same : s.right ≡ s.r
    pub left_end : LeftEnd s
    pub right_end : RightEnd s
    pub searched : (s.addr ≡ addr) ⊎ (s.addr ≡ addr + 1)

  module _ (gap : HasGap) (small : addr + 1 < word) where
    narrow_left :
        (s : Search) (to : ℕ)
        → LeftEnd s
        → NoStab stabs type s.l to
        → s.l ≤ to
        → LeftEnd (record s { l = to })
    narrow_left s to (none_yet e h) k le = none_yet e (join stabs type left s.l to h k)
    narrow_left s to (at_stab a lo hi lt t v h) k le =
        at_stab a lo (omega arith) lt t v (join stabs type (s.left + 1) s.l to h k)

    -- Each round narrows the range, or has found the address.
    narrow-Narrowed :
        (s : Search) (true_m : ℕ) (o : Option ℕ)
        → Narrowed s
        → s.l ≤ true_m
        → true_m < s.r
        → Last stabs type s.l (true_m + 1 - s.l) o
        → Narrowed (narrow stabs s true_m o)
    unfolding narrow
    narrow-Narrowed s true_m none h le lt (nothing e) = record {
      l_in = omega (arith, h.l_in);
      l_r = omega arith;
      r_in = h.r_in;
      same = h.same;
      left_end =
          narrow_left s (true_m + 1) h.left_end
            (wider stabs type s.l _ (true_m + 1) (omega arith) e) (omega arith);
      right_end = elim h.right_end [
        | no_next e' ↦ no_next e'
        | next_stab a b c d ↦ next_stab a b c d
      ];
      searched = h.searched;
    }
    narrow-Narrowed s true_m (some m) h le lt (just _ lo hi t e) =
        elim (Bool-cases (ltb (stabs m).n_value s.addr)) [
          | inl less ↦ rw less (record {
            l_in = omega (arith, h.l_in);
            l_r = omega arith;
            r_in = h.r_in;
            same = h.same;
            left_end =
                at_stab refl (omega (arith, h.l_in)) (omega arith) (omega (arith, h.r_in)) t
                  (ground (arith, less, h.searched))
                  (wider stabs type (m + 1) _ (true_m + 1) (omega arith) e);
            right_end = elim h.right_end [
              | no_next e' ↦ no_next e'
              | next_stab a b c d ↦ next_stab refl b c d
            ];
            searched = h.searched;
          })
          | inr not_less ↦ elim (Bool-cases (ltb s.addr (stabs m).n_value)) [
            | inl more ↦
                rw (not_less, more)
                  (record {
                    l_in = h.l_in;
                    l_r = lo;
                    r_in = omega (arith, h.r_in);
                    same = refl;
                    left_end = elim h.left_end [
                      | none_yet e' k ↦ none_yet e' k
                      | at_stab a b c d e' f g ↦ at_stab refl b c d e' f g
                    ];
                    right_end =
                        next_stab refl (omega (arith, h.r_in)) t (ground (arith, more, h.searched));
                    searched = h.searched;
                  })
            | inr not_more ↦
                rw (not_less, not_more)
                  (record {
                    l_in = omega (arith, h.l_in);
                    l_r = omega arith;
                    r_in = h.r_in;
                    same = h.same;
                    left_end =
                        at_stab refl (omega (arith, h.l_in)) (omega arith) (omega (arith, h.r_in)) t
                          (ground (
                            arith,
                            not_less,
                            not_more,
                            h.searched,
                            gap m (omega (arith, h.l_in)) (omega (arith, h.r_in)) t,
                          ))
                          (λ j a b. absurd (omega arith));
                    right_end = elim h.right_end [
                      | no_next e' ↦ no_next e'
                      | next_stab a b c d ↦ next_stab refl b c d
                    ];
                    searched = inr (
                        ground (
                          arith,
                          small,
                          not_less,
                          not_more,
                          h.searched,
                          gap m (omega (arith, h.l_in)) (omega (arith, h.r_in)) t,
                        ));
                  })
          ]
        ]

    abbrev pub weight : Search → ℕ
    weight s = 2 * (s.r - s.l) + (if s.addr == addr then 1 else 0)

    weight-narrow :
        (s : Search) (true_m : ℕ) (o : Option ℕ)
        → Narrowed s
        → s.l ≤ true_m
        → true_m < s.r
        → Last stabs type s.l (true_m + 1 - s.l) o
        → weight (narrow stabs s true_m o) < weight s
    unfolding narrow
    weight-narrow s true_m none h le lt (nothing e) = ground arith
    weight-narrow s true_m (some m) h le lt (just _ lo hi t e) =
        ground (arith, h.searched, small, gap m (omega (arith, h.l_in)) (omega (arith, h.r_in)) t)

    pub bisect-Narrowed :
        (n : ℕ) (s : Search)
        → Narrowed s
        → weight s < n
        → (s' : Search) × (bisect stabs type n s ≡ some s') × Narrowed s' × (s'.l ≡ s'.r)
    unfolding bisect
    bisect-Narrowed zero s h lt = absurd (omega arith)
    bisect-Narrowed (suc n) s h lt = elim (Bool-cases (ltb s.l s.r)) [
      | inl e ↦
          let less : s.l < s.r = ltb→lt s.l s.r e in
          let true_m = (s.l + (s.r - 1)) / 2 in
          let o = search_back stabs type s.l (true_m + 1 - s.l) in
          let found = search_back-Last stabs type s.l (true_m + 1 - s.l) in
          let w = weight-narrow s true_m o h (omega arith) (omega arith) found in
          rw (bisect, e)
            (bisect-Narrowed n (narrow stabs s true_m o)
              (narrow-Narrowed s true_m o h (omega arith) (omega arith) found)
              (omega (arith, w, lt)))
      | inr e ↦ rw (bisect, e) (s, refl, h, ground (arith, e, h.l_r))
    ]

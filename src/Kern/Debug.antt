-- ===== src/Kern/Debug.antt =====
-- `stab_binsearch` of kern/kdebug.c. Inside the search a right end is one more than the source's, which
-- may be -1; the results are bit patterns.
pub mod Backwards
pub mod Rounds
pub mod Brackets
use sisop_mendez.Base.{
  Bool, Option, false, if◌then◌else◌, leb, ltb, none, some, suc, true, zero, ℕ, ◌%◌, ◌*◌, ◌+◌, ◌-◌,
  ◌/◌, ◌==◌,
}
use sisop_mendez.Kern.Types.{word}

-- The fields of `struct Stab` that the search reads.
pub record Stab : Type 0 where
  pub n_type : ℕ
  pub n_value : ℕ

abbrev pub Stabs : Type 0
Stabs = ℕ → Stab

-- `r` is behind the range that is left, `right` behind `*region_right`.
pub record Search : Type 0 where
  pub l : ℕ
  pub r : ℕ
  pub left : ℕ
  pub right : ℕ
  pub addr : ℕ
  pub any_matches : Bool

pub record Region : Type 0 where
  pub region_left : ℕ
  pub region_right : ℕ

-- The last stab of the type among `n` from `l` on.
unfoldable pub search_back : Stabs → ℕ → ℕ → ℕ → Option ℕ
search_back stabs type l zero = none
search_back stabs type l (suc n) =
    let rest = search_back stabs type l n in
    if (stabs (l + n)).n_type == type then some (l + n) else rest

-- The comparison at the stab `m`.
unfoldable pub narrow : Stabs → Search → ℕ → Option ℕ → Search
narrow stabs s true_m none = record s { l = true_m + 1 }
narrow stabs s true_m (some m) =
    if ltb (stabs m).n_value s.addr
    then record s { any_matches = true; left = m; l = true_m + 1 }
    else if ltb s.addr (stabs m).n_value
    then record s { any_matches = true; right = m; r = m }
    else record s { any_matches = true; left = m; l = m; addr = (s.addr + 1) % word }

-- The outer loop, with fuel.
unfoldable pub bisect : Stabs → ℕ → ℕ → Search → Option Search
bisect stabs type zero s = none
bisect stabs type (suc n) s = elim (ltb s.l s.r) [
  | true ↦
      let true_m = (s.l + (s.r - 1)) / 2 in
      bisect stabs type n (narrow stabs s true_m (search_back stabs type s.l (true_m + 1 - s.l)))
  | false ↦ some s
]

-- The loop behind it, with `n` stabs behind `left` to go.
unfoldable pub rightmost : Stabs → ℕ → ℕ → ℕ → ℕ
rightmost stabs type left zero = left
rightmost stabs type left (suc n) =
    let rest = rightmost stabs type left n in
    if (stabs (left + suc n)).n_type == type then left + suc n else rest

-- `a - 1` on `int`
abbrev pub before : ℕ → ℕ
before a = (a + word - 1) % word

unfoldable pub bracket : Stabs → ℕ → Search → Region
bracket stabs type s =
    if s.any_matches
    then record {
      region_left =
          if leb s.right s.left
          then before s.right
          else rightmost stabs type s.left (s.right - 1 - s.left);
      region_right = before s.right;
    }
    else record { region_left = s.left; region_right = before s.left }

-- The search in the stabs from `left` to before `right`. Each round takes a stab away, but for one at
-- most, which finds the address itself.
unfoldable pub stab_binsearch : Stabs → ℕ → ℕ → ℕ → ℕ → Option Region
stab_binsearch stabs left right type addr =
    elim (bisect stabs type (2 * (right - left) + 2) (record {
      l = left;
      r = right;
      left = left;
      right = right;
      addr = addr;
      any_matches = false;
    })) [ none ↦ none | some s ↦ some (bracket stabs type s) ]

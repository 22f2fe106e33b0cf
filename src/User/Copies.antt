-- ===== src/User/Copies.antt =====
-- The calls of `fork` for one page, when every system call succeeds.
use Prim.Native.Nat.{bit_or}
use sisop_mendez.Base.{
  ==_iff, All, Bool, Bool-cases, List, [], arith, false, if◌then◌else◌, inl, inr, not, refl, true,
  ℕ, ◌*◌, ◌++◌, ◌/◌, ◌==◌, ◌||◌, ◌∷◌, ◌≡◌, ◌≢◌, ◌⊎◌,
}
use sisop_mendez.User.{
  Call, Trace, copy_page_of, duppage, exception_page, finished, has, make, map_call, pte_cow, pte_p,
  pte_pcd, pte_pwt, pte_u, pte_w, shared_perm,
}

abbrev pub all_made : Call → Bool
all_made c = true

-- A call that stands in a list.
abbrev pub Among : Call → List Call → Type 0
Among c [] = ⊥
Among c (x ∷ xs) = (c ≡ x) ⊎ Among c xs

pub Among-left : (c : Call) (xs ys : List Call) → Among c xs → Among c (xs ++ ys)
Among-left c [] ys h = absurd h
Among-left c (x ∷ xs) ys (inl e) = inl e
Among-left c (x ∷ xs) ys (inr h) = inr (Among-left c xs ys h)

pub Among-right : (c : Call) (xs ys : List Call) → Among c ys → Among c (xs ++ ys)
Among-right c [] ys h = h
Among-right c (x ∷ xs) ys h = inr (Among-right c xs ys h)

pub All-append : (P : Call → Type 0) (xs ys : List Call) → All P xs → All P ys → All P (xs ++ ys)
All-append P [] ys h k = k
All-append P (x ∷ xs) ys h k = (h.0, All-append P xs ys h.1 k)

-- A mapping of the caller's page at the same address, not writable, and not the exception stack.
abbrev pub IsGuarded : Call → Type 0
IsGuarded (map_call src a dst a' perm) =
    (src ≡ 0) × (a' ≡ a) × (a ≢ exception_page * 4096) × (has perm pte_w ≡ false)
IsGuarded _ = ⊥

-- The permissions of a page in the child.
abbrev pub child_perm : ℕ → ℕ
child_perm pte =
    if has pte pte_w || has pte pte_cow then bit_or (shared_perm pte) pte_cow else shared_perm pte

shared_perm-guarded :
    (pte : ℕ)
    → (has (shared_perm pte) pte_w ≡ false) × (has (bit_or (shared_perm pte) pte_cow) pte_w ≡ false)
shared_perm-guarded pte = elim (Bool-cases (has pte pte_pcd || has pte pte_pwt)) [
  | inl e ↦ rw e (refl, refl)
  | inr e ↦ rw e (refl, refl)
]

module _ (uvpd uvpt : ℕ → ℕ) (envid : ℕ) where
  -- A page that the child gets.
  pub record IsShared (pn : ℕ) : Type 0 where
    pub no_exception : pn ≢ exception_page
    pub table_present : has (uvpd (pn / 1024)) pte_p ≡ true
    pub table_user : has (uvpd (pn / 1024)) pte_u ≡ true
    pub present : has (uvpt pn) pte_p ≡ true
    pub user : has (uvpt pn) pte_u ≡ true

  abbrev pub to_child : ℕ → Call
  to_child pn = map_call 0 (pn * 4096) envid (pn * 4096) (child_perm (uvpt pn))

  abbrev pub to_parent : ℕ → Call
  to_parent pn = map_call 0 (pn * 4096) 0 (pn * 4096) (child_perm (uvpt pn))

  -- The calls for one page.
  pub record PageCopied (pn : ℕ) (t : Trace) : Type 0 where
    pub calm : t.panicked ≡ false
    pub guarded : All IsGuarded t.calls
    pub child : IsShared pn → Among (to_child pn) t.calls
    pub parent :
        IsShared pn
        → (has (uvpt pn) pte_w || has (uvpt pn) pte_cow) ≡ true
        → Among (to_parent pn) t.calls

  duppage-PageCopied :
      (pn : ℕ)
      → pn ≢ exception_page
      → has (uvpt pn) pte_p ≡ true
      → has (uvpt pn) pte_u ≡ true
      → PageCopied pn (duppage all_made envid pn (uvpt pn))
  unfolding duppage make
  duppage-PageCopied pn ne p u =
      let perms = shared_perm-guarded (uvpt pn) in
      let at : pn * 4096 ≢ exception_page * 4096 = omega (arith, ne) in
      elim (Bool-cases (has (uvpt pn) pte_w || has (uvpt pn) pte_cow)) [
        | inl w ↦
            rw (duppage, p, u, w)
              (record {
                calm = refl;
                guarded = ((refl, refl, at, perms.1), ((refl, refl, at, perms.1), tt));
                child = λ s. inl (rw w refl);
                parent = λ s e. inr (inl (rw w refl));
              })
        | inr r ↦
            rw (duppage, p, u, r)
              (record {
                calm = refl;
                guarded = ((refl, refl, at, perms.0), tt);
                child = λ s. inl (rw r refl);
                parent = λ s e. absurd (cc);
              })
      ]

  finished-PageCopied : (pn : ℕ) → ¬ IsShared pn → PageCopied pn finished
  finished-PageCopied pn h = record {
    calm = refl;
    guarded = tt;
    child = λ s. absurd (h s);
    parent = λ s e. absurd (h s);
  }

  pub copy_page_of-PageCopied : (pn : ℕ) → PageCopied pn (copy_page_of all_made uvpd uvpt envid pn)
  unfolding copy_page_of
  copy_page_of-PageCopied pn = elim (Bool-cases (pn == exception_page)) [
    | inl x ↦
        rw (copy_page_of, x)
          (finished-PageCopied pn (λ s. s.no_exception ((==_iff pn exception_page).0 x)))
    | inr nx ↦
        elim (Bool-cases
          (not (has (uvpd (pn / 1024)) pte_p) || not (has (uvpd (pn / 1024)) pte_u))) [
            | inl x ↦
                rw (copy_page_of, nx, x)
                  (finished-PageCopied pn (λ s. ground (arith, s.table_present, s.table_user, x)))
            | inr nt ↦ elim (Bool-cases (not (has (uvpt pn) pte_p) || not (has (uvpt pn) pte_u))) [
              | inl x ↦
                  rw (copy_page_of, nx, nt, x)
                    (finished-PageCopied pn (λ s. ground (arith, s.present, s.user, x)))
              | inr np ↦
                  let ne : pn ≢ exception_page = ground (arith, nx) in
                  let p : has (uvpt pn) pte_p ≡ true = ground (arith, np) in
                  let u : has (uvpt pn) pte_u ≡ true = ground (arith, np) in
                  rw (copy_page_of, nx, nt, np) (duppage-PageCopied pn ne p u)
            ]
          ]
  ]

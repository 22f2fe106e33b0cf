-- ===== src/User/Faults.antt =====
-- What the calls of `pgfault` leave of an address space when every system call succeeds.
use sisop_mendez.Base.{
  ==_iff, Bool-cases, List, Option, [], arith, false, if◌then◌else◌, inl, inr, none, refl, some,
  sym, true, ℕ, ◌*◌, ◌/◌, ◌==◌, ◌∷◌, ◌≡◌, ◌≢◌,
}
use sisop_mendez.User.{
  Call, Trace, alloc_call, copy_call, copy_page, faults_again, followed_by, handled, has, is_users,
  make, map_call, panic_test, pftemp, pgfault, pte_cow, runnable_call, unmap_call, upcall_call,
}
use sisop_mendez.User.Copies.{all_made}

-- The address space of the caller: the frame and the permissions at the address of a page, and the
-- bytes of a frame.
pub record Space : Type 0 where
  pub mapping : ℕ → Option (ℕ × ℕ)
  pub memory : ℕ → ℕ → ℕ

abbrev put {ℓ} : {A : Type ℓ} → (ℕ → A) → ℕ → A → ℕ → A
put f i v j = if i == j then v else f j

abbrev copied : Option (ℕ × ℕ) → Option (ℕ × ℕ) → Space → Space
copied (some (f, perm)) (some (g, perm')) s = record s { memory = put s.memory f (s.memory g) }
copied none m s = s
copied (some f) none s = s

abbrev mapped_to : Option (ℕ × ℕ) → ℕ → ℕ → Space → Space
mapped_to none dst perm s = s
mapped_to (some (f, perm')) dst perm s = record s { mapping = put s.mapping dst (some (f, perm)) }

-- What a call that succeeds does to the caller's space; `fresh` is the frame that is allocated.
unfoldable pub after : ℕ → Call → Space → Space
after fresh (alloc_call envid va perm) s = record s {
  mapping = put s.mapping va (some (fresh, perm));
  memory = put s.memory fresh (λ i. 0);
}
after fresh (copy_call dst src) s = copied (s.mapping dst) (s.mapping src) s
after fresh (map_call srcenv src dstenv dst perm) s = mapped_to (s.mapping src) dst perm s
after fresh (unmap_call envid va) s = record s { mapping = put s.mapping va none }
after fresh (upcall_call envid) s = s
after fresh (runnable_call envid) s = s

unfoldable pub after_all : ℕ → List Call → Space → Space
after_all fresh [] s = s
after_all fresh (c ∷ cs) s = after_all fresh cs (after fresh c s)

-- The page has a copy of its old frame in the fresh one, writable, and nothing else has changed but
-- that PFTEMP is not mapped.
pub record Copied (page old fresh : ℕ) (s s' : Space) : Type 0 where
  pub writable : s'.mapping page ≡ some (fresh, 7)
  pub same_bytes : s'.memory fresh ≡ s.memory old
  pub no_temp : s'.mapping pftemp ≡ none
  pub other_pages : (v : ℕ) → v ≢ page → v ≢ pftemp → s'.mapping v ≡ s.mapping v
  pub other_frames : (f : ℕ) → f ≢ fresh → s'.memory f ≡ s.memory f

abbrev copy_calls : ℕ → List Call
copy_calls page =
    alloc_call 0 pftemp 7
    ∷ copy_call pftemp page
    ∷ map_call 0 pftemp 0 page 7
    ∷ unmap_call 0 pftemp
    ∷ []

apart : (a b : ℕ) → a ≢ b → (b == a) ≡ false
apart a b h = ground (arith, h)

after_all-Copied :
    (page old fresh perm : ℕ) (s : Space)
    → page ≢ pftemp
    → fresh ≢ old
    → s.mapping page ≡ some (old, perm)
    → Copied page old fresh s (after_all fresh (copy_calls page) s)
unfolding after_all after
after_all-Copied page old fresh perm s no_temp new maps =
    let other = apart page pftemp no_temp in
    let other' = apart pftemp page (λ e. no_temp (sym e)) in
    let self = (==_iff page page).1 refl in
    let own = (==_iff fresh fresh).1 refl in
    let distinct : (fresh == old) ≡ false = ground (arith, new) in
    rw (other, maps)
      (record {
        writable = rw (self, other) refl;
        same_bytes = rw (own, distinct) refl;
        no_temp = refl;
        other_pages = λ v ne ne'. rw (apart v page ne, apart v pftemp ne') refl;
        other_frames = λ f ne. rw (apart f fresh ne) refl;
      })

panic_test-zero : (err pte : ℕ) → panic_test err pte ≡ 0
unfolding panic_test
panic_test-zero err pte = elim (Bool-cases (has err 2)) [
  | inl w ↦ elim (Bool-cases (has pte pte_cow)) [ inl c ↦ rw (w, c) refl | inr n ↦ rw (w, n) refl ]
  | inr r ↦ elim (Bool-cases (has pte pte_cow)) [ inl c ↦ rw (r, c) refl | inr n ↦ rw (r, n) refl ]
]

-- If every system call succeeds, `pgfault` never panics on an address, outside of the page
-- PFTEMP, whose directory entry and entry are present and the user's, whatever the error code
-- and the other bits of the entry are: after its calls, the page is mapped writable to the
-- allocated frame, which has the bytes of the old frame, PFTEMP is not mapped, and no other
-- mapping of the caller and no other frame has changed.
pub pgfault-copies :
    (uvpd uvpt : ℕ → ℕ) (addr err old fresh perm : ℕ) (s : Space)
    → is_users (uvpd (addr / 4096 / 1024)) ≡ true
    → is_users (uvpt (addr / 4096)) ≡ true
    → addr / 4096 * 4096 ≢ pftemp
    → fresh ≢ old
    → s.mapping (addr / 4096 * 4096) ≡ some (old, perm)
    → (t : Trace) × (pgfault all_made uvpd uvpt addr err ≡ handled t)
      × (t.panicked ≡ false)
      × Copied (addr / 4096 * 4096) old fresh s (after_all fresh t.calls s)
unfolding pgfault copy_page make followed_by
pgfault-copies uvpd uvpt addr err old fresh perm s table page no_temp new maps = (
  record { calls = copy_calls (addr / 4096 * 4096); panicked = false },
  rw (table, panic_test-zero err (uvpt (addr / 4096)), page) refl,
  refl,
  after_all-Copied (addr / 4096 * 4096) old fresh perm s no_temp new maps,
)

-- Without a table for the address the handler faults again at once, and without a page behind its
-- first call.
pgfault-faults_again :
    (uvpd uvpt : ℕ → ℕ) (addr err : ℕ)
    → (is_users (uvpd (addr / 4096 / 1024)) ≡ false
        → pgfault all_made uvpd uvpt addr err ≡ faults_again [])
      × (is_users (uvpd (addr / 4096 / 1024)) ≡ true
          → is_users (uvpt (addr / 4096)) ≡ false
          → addr / 4096 * 4096 ≢ pftemp
          → pgfault all_made uvpd uvpt addr err ≡ faults_again (alloc_call 0 pftemp 7 ∷ []))
unfolding pgfault copy_page
pgfault-faults_again uvpd uvpt addr err = (
  λ table. rw table refl,
  λ table page ne.
      let other : (addr / 4096 * 4096 == pftemp) ≡ false = ground (arith, ne) in
      rw (table, panic_test-zero err (uvpt (addr / 4096)), page, other) refl,
)

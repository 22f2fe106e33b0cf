-- ===== src/Shell/Exec/Descriptors.antt =====
-- The steps of exec.c on descriptor tables, when every call of the system succeeds.
use native.Mathlib.Decide.{ℕ_discrete}
use sisop_mendez.Base.{
  Option, Option-cases, arith, false, inl, inr, none, refl, some, suc, sym, true, zero, ℕ, ◌+◌, ◌<◌,
  ◌==◌, ◌∙◌, ◌≡◌, ◌≢◌, ◌≤◌,
}
use sisop_mendez.Shell.Exec.{
  Descriptor, OpenFile, SystemCalls, Table, after_exec, dup2, lowest_free, open_max, open_redir_fd,
  opened, put_fd,
}
use sisop_mendez.Shell.Types.{Str}

abbrev pub file_at : OpenFile → Option Descriptor
file_at f = some (record { file = f; cloexec = false })

-- The standard descriptors stay open in a program, and none from `b` on is in use.
pub record IsReady (t : Table) (b : ℕ) : Type 0 where
  pub standard : (fd : ℕ) → fd < 3 → (f : OpenFile) × (t fd ≡ file_at f)
  pub high : (i : ℕ) → b ≤ i → t i ≡ none

-- Two tables give a program the same descriptors.
abbrev pub AreAlike : Table → Table → Type 0
AreAlike t u = (i : ℕ) → after_exec t i ≡ after_exec u i

pub put_fd_self : (t : Table) (fd : ℕ) (d : Option Descriptor) → put_fd t fd d fd ≡ d
unfolding put_fd
put_fd_self t fd d = ground arith

pub put_fd_other : (t : Table) (fd i : ℕ) (d : Option Descriptor) → i ≢ fd → put_fd t fd d i ≡ t i
unfolding put_fd
put_fd_other t fd i d ne = ground (arith, ne)

pub lowest_free_lem :
    (t : Table) (i n j : ℕ)
    → i ≤ j
    → j < i + n
    → t j ≡ none
    → (k : ℕ) × (lowest_free t i n ≡ some k) × (t k ≡ none) × (k ≤ j)
unfolding lowest_free
lowest_free_lem t i zero j lo hi e = absurd (omega arith)
lowest_free_lem t i (suc n) j lo hi e = elim (Option-cases (t i)) [
  | inl free ↦ rw (lowest_free, free) (i, refl, free, lo)
  | inr used ↦
      let ne : j ≢ i = λ q. (let filled = used.1 in cc) in
      rw (lowest_free, used.1) (lowest_free_lem t (suc i) n j (omega (arith, ne)) (omega arith) e)
]

module _ {t : Table} {b : ℕ} (h : IsReady t b) where
  pub not_standard : (k fd : ℕ) → t k ≡ none → fd < 3 → k ≢ fd
  not_standard k fd e lt q = (let (f, filled) = h.standard fd lt in cc)

  pub put-IsReady : (fd : ℕ) (f : OpenFile) → fd < 3 → 3 ≤ b → IsReady (put_fd t fd (file_at f)) b
  put-IsReady fd f lt le = record {
    standard = λ i l. elim (ℕ_discrete i fd) [
      | yes e ↦ (f, rw e (put_fd_self t fd (file_at f)))
      | no ne ↦ (let (g, eg) = h.standard i l in (g, put_fd_other t fd i (file_at f) ne ∙ eg))
    ];
    high = λ i l. put_fd_other t fd i (file_at f) (omega arith) ∙ h.high i l;
  }

-- All calls succeed.
pub record AllWell (os : SystemCalls) : Type 0 where
  pub opens : (file : Str) → os.opens file ≡ true
  pub pipes : os.pipes ≡ true
  pub forks : (i : ℕ) → os.forks i ≡ true
  pub finds : (file : Str) → os.finds file ≡ true

after_exec-closed :
    (t : Table) (k : ℕ) (f : OpenFile)
    → t k ≡ some (record { file = f; cloexec = true })
    → after_exec t k ≡ none
unfolding after_exec
after_exec-closed t k f e = rw (after_exec, e) refl

after_exec-none : (t : Table) (k : ℕ) → t k ≡ none → after_exec t k ≡ none
unfolding after_exec
after_exec-none t k e = rw (after_exec, e) refl

after_exec-same : (t u : Table) (i : ℕ) → t i ≡ u i → after_exec t i ≡ after_exec u i
unfolding after_exec
after_exec-same t u i e = rw (after_exec, e) refl

pub dup2-put :
    (t : Table) (old fd : ℕ) (d : Descriptor)
    → t old ≡ some d
    → old ≢ fd
    → dup2 t old fd ≡ some (put_fd t fd (file_at d.file))
unfolding dup2
dup2-put t old fd d e ne =
    let other : (old == fd) ≡ false = ground (arith, ne) in rw (dup2, e, other) refl

open_redir_fd-put :
    (os : SystemCalls) (t : Table) (file : Str) (flags fd k : ℕ)
    → lowest_free t 0 open_max ≡ some k
    → os.opens file ≡ true
    → k ≢ fd
    → open_redir_fd os t file flags fd
      ≡ some (
          put_fd
            (put_fd t k (some (record { file = opened file flags; cloexec = true })))
            fd
            (file_at (opened file flags)))
unfolding open_redir_fd
open_redir_fd-put os t file flags fd k found ok ne =
    let tmp : Descriptor = record { file = opened file flags; cloexec = true } in
    rw (open_redir_fd, found, ok)
      (dup2-put (put_fd t k (some tmp)) k fd tmp (put_fd_self t k (some tmp)) ne)

-- What a redirection of `fd` leaves: one more descriptor may be in use, which `execvp` closes.
pub record Redirected (t u : Table) (b fd : ℕ) (d : Option Descriptor) (t' : Table) : Type 0 where
  pub ready : IsReady t' (b + 1)
  pub alike : AreAlike t' (put_fd u fd d)

module _ (t u : Table) (b : ℕ) (h : IsReady t b) (a : AreAlike t u) (le : 3 ≤ b) where
  put-Redirected :
      (k fd : ℕ) (f g : OpenFile)
      → t k ≡ none
      → k ≤ b
      → fd < 3
      → Redirected t u b fd
          (file_at g)
          (put_fd (put_fd t k (some (record { file = f; cloexec = true }))) fd (file_at g))
  put-Redirected k fd f g free low lt =
      let tmp : Option Descriptor = some (record { file = f; cloexec = true }) in
      let ne : k ≢ fd = not_standard h k fd free lt in
      record {
        ready = record {
          standard = λ i l. elim (ℕ_discrete i fd) [
            | yes e ↦ (g, rw e (put_fd_self (put_fd t k tmp) fd (file_at g)))
            | no ne' ↦
                (let (s, es) = h.standard i l in
                  (
                    s,
                    put_fd_other (put_fd t k tmp) fd i (file_at g) ne'
                        ∙ (put_fd_other t k i tmp (λ q. not_standard h k i free l (sym q)) ∙ es),
                  ))
          ];
          high = λ i l.
              put_fd_other (put_fd t k tmp) fd i (file_at g) (omega arith)
              ∙ (put_fd_other t k i tmp (omega arith) ∙ h.high i (omega arith));
        };
        alike = λ i. elim (ℕ_discrete i fd) [
          | yes e ↦ rw e (
              after_exec-same _ _ fd
                (put_fd_self (put_fd t k tmp) fd (file_at g) ∙ sym (put_fd_self u fd (file_at g))))
          | no ne' ↦
              (after_exec-same _ (put_fd t k tmp) i
                  (put_fd_other (put_fd t k tmp) fd i (file_at g) ne')
                ∙ (elim (ℕ_discrete i k) [
                  | yes q ↦ rw q (
                      after_exec-closed (put_fd t k tmp) k f (put_fd_self t k tmp)
                      ∙ sym (sym (a k) ∙ after_exec-none t k free))
                  | no nq ↦ after_exec-same (put_fd t k tmp) t i (put_fd_other t k i tmp nq) ∙ a i
                ]
                    ∙ after_exec-same u (put_fd u fd (file_at g)) i
                        (sym (put_fd_other u fd i (file_at g) ne'))))
        ];
      }

  pub open_redir_fd-Redirected :
      (os : SystemCalls)
      → AllWell os
      → (file : Str) (flags fd : ℕ) → fd < 3
      → b < open_max
      → (t' : Table) × (open_redir_fd os t file flags fd ≡ some t')
        × Redirected t u b fd (file_at (opened file flags)) t'
  open_redir_fd-Redirected os well file flags fd lt fits =
      let (k, found, free, low) =
        lowest_free_lem t 0 open_max b (omega arith) (omega arith) (h.high b (omega arith)) in
      (
        _,
        open_redir_fd-put os t file flags fd k found (well.opens file)
            (not_standard h k fd free lt),
        put-Redirected k fd (opened file flags) (opened file flags) free low lt,
      )

pub put-AreAlike :
    (t u : Table) (fd : ℕ) (d : Option Descriptor)
    → AreAlike t u
    → AreAlike (put_fd t fd d) (put_fd u fd d)
put-AreAlike t u fd d a i = elim (ℕ_discrete i fd) [
  | yes e ↦ rw e (after_exec-same _ _ fd (put_fd_self t fd d ∙ sym (put_fd_self u fd d)))
  | no ne ↦
      after_exec-same _ t i (put_fd_other t fd i d ne)
      ∙ (a i ∙ after_exec-same u _ i (sym (put_fd_other u fd i d ne)))
]

pub after_exec-open :
    (t : Table) (k : ℕ) (f : OpenFile) → t k ≡ file_at f → after_exec t k ≡ file_at f
unfolding after_exec
after_exec-open t k f e = rw (after_exec, e) refl

pub wider-IsReady : (t : Table) (b c : ℕ) → b ≤ c → IsReady t b → IsReady t c
wider-IsReady t b c le h = record { standard = h.standard; high = λ i l. h.high i (omega arith) }

-- ===== src/Shell/Exec/Pipes.antt =====
-- The pipes of `exec_cmd`: their descriptors are closed again, and each child has one end.
use mathlib.Core.Path.{fun_ext}
use native.Mathlib.Decide.{ℕ_discrete}
use sisop_mendez.Base.{
  ap, arith, false, none, refl, some, sym, ℕ, ◌*◌, ◌+◌, ◌<◌, ◌∙◌, ◌≡◌, ◌≢◌, ◌≤◌,
}
use sisop_mendez.Shell.Exec.{
  OpenFile, SystemCalls, Table, child_table, close_both, exec_cmd, make_pipe, open_max, put_fd,
  read_end, write_end,
}
use sisop_mendez.Shell.Exec.Descriptors.{
  AllWell, IsReady, dup2-put, file_at, lowest_free_lem, not_standard, put-IsReady, put_fd_other,
  put_fd_self,
}
use sisop_mendez.Shell.Exec.Wiring.{HasPrograms, exec_simple-wired, wired}
use sisop_mendez.Shell.Types.{Cmd, back, exec, null, pipe}

-- The two descriptors of a new pipe, neither of them a standard one.
record NewPipe (t : Table) (n r w : ℕ) (t' : Table) : Type 0 where
  r_free : t r ≡ none
  w_free : t w ≡ none
  apart : w ≢ r
  r_other : (fd : ℕ) → fd < 3 → r ≢ fd
  w_other : (fd : ℕ) → fd < 3 → w ≢ fd
  made : t' ≡ put_fd (put_fd t r (file_at (read_end n))) w (file_at (write_end n))

make_pipe-NewPipe :
    (os : SystemCalls) (t : Table) (b n : ℕ)
    → AllWell os
    → IsReady t b
    → 3 ≤ b
    → b + 2 ≤ open_max
    → (t' : Table) × (r : ℕ) × (w : ℕ) × (make_pipe os t n ≡ some (t', r, w)) × NewPipe t n r w t'
unfolding make_pipe
make_pipe-NewPipe os t b n well h le fits =
    let (r, fr, er, lr) =
      lowest_free_lem t 0 open_max b (omega arith) (omega arith) (h.high b (omega arith)) in
    let t1 = put_fd t r (file_at (read_end n)) in
    let beyond : t1 (b + 1) ≡ none =
      put_fd_other t r (b + 1) (file_at (read_end n)) (omega (arith, lr))
      ∙ h.high (b + 1) (omega arith) in
    let (w, fw, ew, lw) =
      lowest_free_lem t1 0 open_max (b + 1) (omega arith) (omega arith) beyond in
    let apart : w ≢ r = λ q. (let filled = put_fd_self t r (file_at (read_end n)) in cc) in
    let free : t w ≡ none = sym (put_fd_other t r w (file_at (read_end n)) apart) ∙ ew in
    (
      put_fd t1 w (file_at (write_end n)),
      r,
      w,
      rw (make_pipe, well.pipes, fr, fw) refl,
      record {
        r_free = er;
        w_free = free;
        apart = apart;
        r_other = λ fd lt. not_standard h r fd er lt;
        w_other = λ fd lt. not_standard h w fd free lt;
        made = refl;
      },
    )

module _ {t t' : Table} {n r w : ℕ} (p : NewPipe t n r w t') where
  made-at : (i : ℕ) → i ≢ r → i ≢ w → t' i ≡ t i
  made-at i nr nw =
      ap (λ x. x i) p.made
      ∙ (put_fd_other (put_fd t r (file_at (read_end n))) w i (file_at (write_end n)) nw
          ∙ put_fd_other t r i (file_at (read_end n)) nr)

  at_w : t' w ≡ file_at (write_end n)
  at_w =
      ap (λ x. x w) p.made
      ∙ put_fd_self (put_fd t r (file_at (read_end n))) w (file_at (write_end n))

  at_r : t' r ≡ file_at (read_end n)
  at_r =
      ap (λ x. x r) p.made
      ∙ (put_fd_other (put_fd t r (file_at (read_end n))) w r (file_at (write_end n))
            (λ q. p.apart (sym q))
          ∙ put_fd_self t r (file_at (read_end n)))

  -- With both descriptors closed, a table is what it was but for the places that agree with `v`.
  close_both-at :
      (v u : Table)
      → ((i : ℕ) → i ≢ r → i ≢ w → v i ≡ u i)
      → u r ≡ none
      → u w ≡ none
      → close_both r w v ≡ u
  close_both-at v u same ur uw = fun_ext (λ i. elim (ℕ_discrete i w) [
    | yes e ↦ rw e (put_fd_self (put_fd v r none) w none ∙ sym uw)
    | no nw ↦ put_fd_other (put_fd v r none) w i none nw ∙ elim (ℕ_discrete i r) [
      | yes e ↦ rw e (put_fd_self v r none ∙ sym ur)
      | no nr ↦ put_fd_other v r i none nr ∙ same i nr nw
    ]
  ])

  close-parent : close_both r w t' ≡ t
  close-parent = close_both-at t' t made-at p.r_free p.w_free

  -- A child that has the end `end` of the pipe at `from`, in the place of `fd`.
  child_table-put :
      (from fd : ℕ) (f : OpenFile)
      → t' from ≡ file_at f
      → from ≢ fd
      → fd < 3
      → child_table t' from fd r w ≡ put_fd t fd (file_at f)
  unfolding child_table
  child_table-put from fd f e ne lt =
      let moved = dup2-put t' from fd (record { file = f; cloexec = false }) e ne in
      let same : (i : ℕ) → i ≢ r → i ≢ w → put_fd t' fd (file_at f) i ≡ put_fd t fd (file_at f) i =
        λ i nr nw. elim (ℕ_discrete i fd) [
          | yes q ↦ rw q (put_fd_self t' fd (file_at f) ∙ sym (put_fd_self t fd (file_at f)))
          | no nq ↦
              put_fd_other t' fd i (file_at f) nq
              ∙ (made-at i nr nw ∙ sym (put_fd_other t fd i (file_at f) nq))
        ] in
      rw (child_table, moved)
        (close_both-at (put_fd t' fd (file_at f)) (put_fd t fd (file_at f)) same
          (put_fd_other t fd r (file_at f) (p.r_other fd lt) ∙ p.r_free)
          (put_fd_other t fd w (file_at f) (p.w_other fd lt) ∙ p.w_free))

-- If every call of the system succeeds, `exec_cmd` on descriptors of which the standard ones are
-- open, and all from some number on, at most OPEN_MAX less four, are free, runs just the
-- programs of the command, each with its arguments and variables; the left program of a pipe has
-- its write end as standard output, the right one its read end as standard input, redirections
-- come on top of that, `&1` after that of the output, and neither a program nor the process that
-- waits has any other new descriptor.
pub exec_cmd-wired :
    (os : SystemCalls) (n b : ℕ) (t : Table) (c : Cmd)
    → AllWell os
    → IsReady t b
    → 3 ≤ b
    → b + 4 ≤ open_max
    → HasPrograms c
    → exec_cmd os n t c ≡ wired n t c
unfolding exec_cmd wired
exec_cmd-wired os n b t null well h le fits args = absurd args
exec_cmd-wired os n b t (exec e) well h le fits args =
    exec_simple-wired os well t b e e.type h le (omega arith) args
exec_cmd-wired os n b t (back s e) well h le fits args =
    exec_simple-wired os well t b e e.type h le (omega arith) args
exec_cmd-wired os n b t (pipe left right) well h le fits args =
    let (t', r, w, made, p) = make_pipe-NewPipe os t b n well h le (omega arith) in
    let lt =
      child_table-put p w 1 (write_end n) (at_w p) (p.w_other 1 (omega arith)) (omega arith) in
    let rt =
      child_table-put p r 0 (read_end n) (at_r p) (p.r_other 0 (omega arith)) (omega arith) in
    let left_run =
      exec_cmd-wired os (2 * n + 1) b (put_fd t 1 (file_at (write_end n))) left well
        (put-IsReady h 1 (write_end n) (omega arith) le) le fits args.0 in
    let right_run =
      exec_cmd-wired os (2 * n + 2) b (put_fd t 0 (file_at (read_end n))) right well
        (put-IsReady h 0 (read_end n) (omega arith) le) le fits args.1 in
    rw
      (
        exec_cmd,
        made,
        well.forks (2 * n + 1),
        well.forks (2 * n + 2),
        lt,
        rt,
        left_run,
        right_run,
        close-parent p,
      )
      refl

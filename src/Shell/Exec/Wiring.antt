-- ===== src/Shell/Exec/Wiring.antt =====
-- `exec_cmd` as a wiring of its programs: which file each standard descriptor of a program is.
use mathlib.Core.Path.{fun_ext}
use sisop_mendez.Base.{
  Bool-cases, List, [], ap, arith, false, if◌then◌else◌, inl, inr, length, refl, some, sym, ℕ, ◌*◌,
  ◌+◌, ◌<◌, ◌∙◌, ◌∷◌, ◌≡◌, ◌≤◌,
}
use sisop_mendez.Shell.Exec.{
  Run, SystemCalls, Table, after_exec, crashes, exec_program, exec_redirected, exec_simple,
  executes, is_named, is_stdout, o_output, o_rdonly, open_max, opened, piped, put_fd, read_end,
  redirect, redirect_all, redirect_stderr, write_end,
}
use sisop_mendez.Shell.Exec.Descriptors.{
  AllWell, AreAlike, IsReady, after_exec-open, dup2-put, file_at, open_redir_fd-Redirected,
  put-AreAlike, put-IsReady, wider-IsReady,
}
use sisop_mendez.Shell.Types.{
  Cmd, CmdType, ExecCmd, Str, back, exec, exec_type, null, pipe, redir_type,
}

abbrev pub wired_redirect : Str → ℕ → ℕ → Table → Table
wired_redirect file flags fd u =
    if is_named file then put_fd u fd (file_at (opened file flags)) else u

abbrev pub wired_stderr : Str → Table → Table
wired_stderr file u =
    if is_stdout file then put_fd u 2 (after_exec u 1) else wired_redirect file o_output 2 u

-- The input and the output first, and the errors then, so that `&1` is the new output.
abbrev pub wired_all : ExecCmd → Table → Table
wired_all e u =
    wired_stderr e.err_file
      (wired_redirect e.out_file o_output 1 (wired_redirect e.in_file o_rdonly 0 u))

abbrev pub wired_simple : Table → ExecCmd → CmdType → Run
wired_simple u e exec_type = executes e.argv e.eargv (after_exec u)
wired_simple u e redir_type = executes e.argv e.eargv (after_exec (wired_all e u))

-- The programs of a command, none of which has a descriptor that it was not given: the left one
-- writes the pipe, the right one reads it, and the parent has no end of it.
unfoldable pub wired : ℕ → Table → Cmd → Run
wired n u null = crashes
wired n u (exec e) = wired_simple u e e.type
wired n u (back s e) = wired_simple u e e.type
wired n u (pipe left right) =
    piped (wired (2 * n + 1) (put_fd u 1 (file_at (write_end n))) left)
      (wired (2 * n + 2) (put_fd u 0 (file_at (read_end n))) right) u

-- Every command has a program, and none is NULL.
abbrev pub HasPrograms : Cmd → Type 0
HasPrograms null = ⊥
HasPrograms (exec e) = 0 < length e.argv
HasPrograms (back s e) = 0 < length e.argv
HasPrograms (pipe left right) = HasPrograms left × HasPrograms right

module _ (os : SystemCalls) (well : AllWell os) where
  redirect-Alike :
      (t u : Table) (b : ℕ) (file : Str) (flags fd : ℕ)
      → IsReady t b
      → AreAlike t u
      → 3 ≤ b
      → b < open_max
      → fd < 3
      → (t' : Table) × (redirect os file flags fd t ≡ some t')
        × IsReady t' (b + 1)
        × AreAlike t' (wired_redirect file flags fd u)
  unfolding redirect
  redirect-Alike t u b file flags fd h a le fits lt = elim (Bool-cases (is_named file)) [
    | inl e ↦
        (let (t', q, r) = open_redir_fd-Redirected t u b h a le os well file flags fd lt fits in
          rw (redirect, e) (t', q, r.ready, r.alike))
    | inr e ↦ rw (redirect, e) (t, refl, wider-IsReady t b (b + 1) (omega arith) h, a)
  ]

  redirect_stderr-Alike :
      (t u : Table) (b : ℕ) (file : Str)
      → IsReady t b
      → AreAlike t u
      → 3 ≤ b
      → b < open_max
      → (t' : Table) × (redirect_stderr os file t ≡ some t')
        × IsReady t' (b + 1)
        × AreAlike t' (wired_stderr file u)
  unfolding redirect_stderr
  redirect_stderr-Alike t u b file h a le fits = elim (Bool-cases (is_stdout file)) [
    | inl e ↦
        let (f, ef) = h.standard 1 (omega arith) in
        let out : after_exec u 1 ≡ file_at f = sym (a 1) ∙ after_exec-open t 1 f ef in
        rw (redirect_stderr, e, out)
          (
            put_fd t 2 (file_at f),
            dup2-put t 1 2 (record { file = f; cloexec = false }) ef (omega arith),
            wider-IsReady _ b (b + 1) (omega arith) (put-IsReady h 2 f (omega arith) le),
            put-AreAlike t u 2 (file_at f) a,
          )
    | inr e ↦
        rw (redirect_stderr, e) (redirect-Alike t u b file o_output 2 h a le fits (omega arith))
  ]

  redirect_all-Alike :
      (t u : Table) (b : ℕ) (e : ExecCmd)
      → IsReady t b
      → AreAlike t u
      → 3 ≤ b
      → b + 3 ≤ open_max
      → (t' : Table) × (redirect_all os e t ≡ some t') × AreAlike t' (wired_all e u)
  unfolding redirect_all
  redirect_all-Alike t u b e h a le fits =
      let (t1, q1, h1, a1) =
        redirect-Alike t u b e.in_file o_rdonly 0 h a le (omega arith) (omega arith) in
      let (t2, q2, h2, a2) =
        redirect-Alike t1 _ (b + 1) e.out_file o_output 1 h1 a1 (omega arith) (omega arith)
          (omega arith) in
      let (t3, q3, h3, a3) =
        redirect_stderr-Alike t2 _ (b + 2) e.err_file (wider-IsReady t2 _ (b + 2) (omega arith) h2)
          a2 (omega arith) (omega arith) in
      (t3, rw (redirect_all, q1, q2) q3, a3)

  exec_program-executes :
      (e : ExecCmd) (arguments : List Str) (t : Table)
      → 0 < length arguments
      → exec_program os e arguments t ≡ executes arguments e.eargv (after_exec t)
  unfolding exec_program
  exec_program-executes e [] t h = absurd (omega arith)
  exec_program-executes e (program ∷ arguments) t h = rw (exec_program, well.finds program) refl

  pub exec_simple-wired :
      (t : Table) (b : ℕ) (e : ExecCmd) (type : CmdType)
      → IsReady t b
      → 3 ≤ b
      → b + 3 ≤ open_max
      → 0 < length e.argv
      → exec_simple os t e type ≡ wired_simple t e type
  unfolding exec_redirected
  exec_simple-wired t b e exec_type h le fits args = exec_program-executes e e.argv t args
  exec_simple-wired t b e redir_type h le fits args =
      let (t', q, a) = redirect_all-Alike t t b e h (λ i. refl) le fits in
      ap (exec_redirected os e) q
      ∙ (exec_program-executes e e.argv t' args ∙ ap (executes e.argv e.eargv) (fun_ext a))

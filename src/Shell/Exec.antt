-- ===== src/Shell/Exec.antt =====
-- exec.c. A descriptor table gives the open file of each descriptor, the
-- lowest first; a file is what its process inherited, what it opened, or an end of a pipe.
pub mod Descriptors
pub mod Wiring
pub mod Pipes
use sisop_mendez.Base.{
  Bool, List, Option, [], and_then, false, if◌then◌else◌, length, ltb, none, not, some, suc, true,
  zero, ℕ, ◌&&◌, ◌*◌, ◌+◌, ◌==◌, ◌∷◌,
}
use sisop_mendez.Shell.Types.{
  Cmd, CmdType, ExecCmd, Str, back, exec, exec_type, null, pipe, redir_type,
}

pub data OpenFile : Type 0 where
  inherited : ℕ → OpenFile
  opened : Str → ℕ → OpenFile
  read_end write_end : ℕ → OpenFile

-- An entry, and whether `execvp` closes it.
pub record Descriptor : Type 0 where
  pub file : OpenFile
  pub cloexec : Bool

abbrev pub Table : Type 0
Table = ℕ → Option Descriptor

unfoldable pub put_fd : Table → ℕ → Option Descriptor → Table
put_fd t fd d i = if i == fd then d else t i

-- The lowest free descriptor from `i` on, of `n`.
unfoldable pub lowest_free : Table → ℕ → ℕ → Option ℕ
lowest_free t i zero = none
lowest_free t i (suc n) =
    let rest = lowest_free t (suc i) n in elim (t i) [ none ↦ some i | some d ↦ rest ]

-- OPEN_MAX
abbrev pub open_max : ℕ
open_max = 1024

-- `dup2(old, fd)`; `none` is -1.
unfoldable pub dup2 : Table → ℕ → ℕ → Option Table
dup2 t old fd = elim (t old) [
  | none ↦ none
  | some d ↦
      some (if old == fd then t else put_fd t fd (some (record { file = d.file; cloexec = false })))
]

-- What the calls of the system answer: `open` of a file, `pipe`, `fork` of the first and of the
-- second child, and `execvp`.
pub record SystemCalls : Type 0 where
  pub opens : Str → Bool
  pub pipes : Bool
  pub forks : ℕ → Bool
  pub finds : Str → Bool

abbrev pub o_rdonly : ℕ
o_rdonly = 0

-- `O_WRONLY | O_CREAT | O_TRUNC`
abbrev pub o_output : ℕ
o_output = 0x241

-- `open_redir_fd`: `open` with O_CLOEXEC, and `dup2`.
unfoldable pub open_redir_fd : SystemCalls → Table → Str → ℕ → ℕ → Option Table
open_redir_fd os t file flags fd = elim (lowest_free t 0 open_max) [
  | none ↦ none
  | some k ↦
      if os.opens file
      then dup2 (put_fd t k (some (record { file = opened file flags; cloexec = true }))) k fd
      else none
]

-- `strlen(file) > 0`
abbrev pub is_named : Str → Bool
is_named file = ltb 0 (length file)

unfoldable pub redirect : SystemCalls → Str → ℕ → ℕ → Table → Option Table
redirect os file flags fd t = if is_named file then open_redir_fd os t file flags fd else some t

-- `strcmp(file, "&1") == 0`
unfoldable pub is_stdout : Str → Bool
is_stdout (a ∷ (b ∷ [])) = a == b'&' && b == b'1'
is_stdout _ = false

unfoldable pub redirect_stderr : SystemCalls → Str → Table → Option Table
redirect_stderr os file t = if is_stdout file then dup2 t 1 2 else redirect os file o_output 2 t

-- The case REDIR, up to the command itself; `none` is its exit.
unfoldable pub redirect_all : SystemCalls → ExecCmd → Table → Option Table
redirect_all os e t =
    and_then (redirect os e.in_file o_rdonly 0 t)
      (λ t1. and_then (redirect os e.out_file o_output 1 t1) (redirect_stderr os e.err_file))

-- What `execvp` leaves open.
unfoldable pub after_exec : Table → Table
after_exec t i = elim (t i) [ none ↦ none | some d ↦ if d.cloexec then none else some d ]

-- A process: the program that it runs, with the variables set before and its descriptors; an exit
-- with a code; or two children, with the descriptors of the parent that waits for them and exits
-- with 0. `not_started` is a child whose `fork` failed, `crashes` the use of NULL.
pub data Run : Type 0 where
  executes : List Str → List Str → Table → Run
  exits : ℕ → Run
  piped : Run → Run → Table → Run
  not_started : Run
  crashes : Run

-- The case EXEC.
unfoldable pub exec_program : SystemCalls → ExecCmd → List Str → Table → Run
exec_program os e [] t = crashes
exec_program os e (program ∷ arguments) t =
    if os.finds program then executes (program ∷ arguments) e.eargv (after_exec t) else exits 255

unfoldable pub exec_redirected : SystemCalls → ExecCmd → Option Table → Run
exec_redirected os e none = exits 255
exec_redirected os e (some t) = exec_program os e e.argv t

abbrev pub exec_simple : SystemCalls → Table → ExecCmd → CmdType → Run
exec_simple os t e exec_type = exec_program os e e.argv t
exec_simple os t e redir_type = exec_redirected os e (redirect_all os e t)

-- `pipe`: the new table, and the two descriptors.
unfoldable pub make_pipe : SystemCalls → Table → ℕ → Option (Table × ℕ × ℕ)
make_pipe os t n =
    if not os.pipes
    then none
    else and_then (lowest_free t 0 open_max) (λ r.
      let t1 = put_fd t r (some (record { file = read_end n; cloexec = false })) in
      and_then (lowest_free t1 0 open_max)
        (λ w. some (put_fd t1 w (some (record { file = write_end n; cloexec = false })), r, w)))

-- The two calls of `close`.
abbrev pub close_both : ℕ → ℕ → Table → Table
close_both r w t = put_fd (put_fd t r none) w none

-- A child's descriptors: the end of the pipe in the place of `fd`. The result of `dup2` is not used.
unfoldable pub child_table : Table → ℕ → ℕ → ℕ → ℕ → Table
child_table t end fd r w = close_both r w (elim (dup2 t end fd) [ none ↦ t | some t' ↦ t' ])

abbrev pub started : Bool → Run → Run
started true run = run
started false run = not_started

-- `exec_cmd`. The pipe and the children of a command have numbers, for the answers and the ends.
unfoldable pub exec_cmd : SystemCalls → ℕ → Table → Cmd → Run
exec_cmd os n t null = crashes
exec_cmd os n t (exec e) = exec_simple os t e e.type
exec_cmd os n t (back s e) = exec_simple os t e e.type
exec_cmd os n t (pipe left right) = elim (make_pipe os t n) [
  | none ↦ exits 255
  | some (t', r, w) ↦
      piped (started (os.forks (2 * n + 1)) (exec_cmd os (2 * n + 1) (child_table t' w 1 r w) left))
        (started (os.forks (2 * n + 2)) (exec_cmd os (2 * n + 2) (child_table t' r 0 r w) right))
        (close_both r w t')
]

-- ===== src/Tests/Exec.antt =====
-- Commands of the shell on the descriptors of a terminal.
use sisop_mendez.Base.{
  List, [], arith, false, if◌then◌else◌, length, ltb, none, refl, true, ℕ, ◌∷◌, ◌≡◌,
}
use sisop_mendez.Fs.Types.{Str}
use sisop_mendez.Shell.Exec.{
  SystemCalls, Table, exec_cmd, exec_redirected, exits, inherited, lowest_free, open_redir_fd,
  redirect, redirect_all,
}
use sisop_mendez.Shell.Exec.Descriptors.{AllWell, IsReady, file_at}
use sisop_mendez.Shell.Exec.Pipes.{exec_cmd-wired}
use sisop_mendez.Shell.Exec.Wiring.{wired}
use sisop_mendez.Shell.Parsing.{
  after_token, block_contains, expand_environ_var, is_environ_var, parse_at, parse_cmd, parse_exec,
  parse_other, parse_tokens, redir_input, redir_output, token,
}
use sisop_mendez.Shell.Parsing.Lines.{behind_spaces, buffer, pipeline, trimmed}
use sisop_mendez.Shell.Run.{
  Shell, World, behind_blanks, cd_path, change_directory, foreground, ran_builtin, run_cmd,
  streqword, string_at,
}
use sisop_mendez.Shell.Run.Lines.{is_builtin, run_cmd-wired}
use sisop_mendez.Shell.Types.{
  Cmd, CmdType, ExecCmd, exec, exec_type, parsed, pipe, pipe_cmd_create, redir_type,
}
use sisop_mendez.Tests.Shell.{environment, ls, spaced_ls, spaced_ls-IsSegment}

abbrev terminal : Table
terminal fd = if ltb fd 3 then file_at (inherited fd) else none

terminal-IsReady : IsReady terminal 3
terminal-IsReady = record {
  standard = λ fd lt. (inherited fd, ground arith);
  high = λ i ge. ground arith;
}

abbrev all_succeed : SystemCalls
all_succeed = record { opens = λ file. true; pipes = true; forks = λ i. true; finds = λ file. true }

all_succeed-AllWell : AllWell all_succeed
all_succeed-AllWell = record {
  opens = λ file. refl;
  pipes = refl;
  forks = λ i. refl;
  finds = λ file. refl;
}

abbrev program : CmdType → Str → Str → ExecCmd
program type name out = record {
  type = type;
  scmd = [];
  argv = name ∷ [];
  eargv = [];
  out_file = out;
  in_file = [];
  err_file = if ltb 0 (length out) then b'&' ∷ b'1' ∷ [] else [];
}

-- `a | b >f 2>&1`
abbrev command : Cmd
command =
    pipe (exec (program exec_type (b'a' ∷ []) []))
      (exec (program redir_type (b'b' ∷ []) (b'f' ∷ [])))

exec_cmd-wired_example : exec_cmd all_succeed 0 terminal command ≡ wired 0 terminal command
exec_cmd-wired_example =
    exec_cmd-wired all_succeed 0 3 terminal command all_succeed-AllWell terminal-IsReady
      (omega arith) (omega arith) (omega arith, omega arith)

-- A file that cannot be opened ends the command.
abbrev no_file : SystemCalls
no_file = record { opens = λ file. false; pipes = true; forks = λ i. true; finds = λ file. true }

no_file_run :
    exec_cmd no_file 0 terminal (exec (program redir_type (b'b' ∷ []) (b'f' ∷ []))) ≡ exits 255
unfolding exec_cmd exec_redirected redirect_all redirect open_redir_fd lowest_free
no_file_run = refl

abbrev world : World
world = record {
  environment = environment;
  place = record { home = none; chdir = λ path. true; getcwd = none };
  calls = all_succeed;
  table = terminal;
  program_status = λ argv. 256;
  before = 0;
}

abbrev shell : Shell
shell = record { prompt = []; status = 1 }

abbrev ls_cmd : Str → Cmd
ls_cmd scmd = exec (record {
  type = exec_type;
  scmd = scmd;
  argv = ls ∷ [];
  eargv = [];
  out_file = [];
  in_file = [];
  err_file = [];
})

-- The line `ls | ls`.
abbrev ls_space : Str
ls_space = b'l' ∷ b's' ∷ b' ' ∷ []

abbrev ls_line : List ℕ
ls_line = buffer [] (ls_space ∷ spaced_ls ∷ [])

two_ls :
    pipeline environment 0 (ls_space ∷ trimmed (spaced_ls ∷ []))
    ≡ parsed (pipe (ls_cmd ls_space) (ls_cmd ls))
unfolding behind_spaces parse_cmd parse_at block_contains parse_exec parse_tokens token parse_other
    redir_output redir_input is_environ_var expand_environ_var after_token pipe_cmd_create
two_ls = refl

no_builtin : is_builtin ls_line ≡ false
unfolding streqword
no_builtin = refl

-- Both programs fail with 1.
run_cmd-wired_example :
    run_cmd world shell ls_line
    ≡ foreground
        (wired 0 terminal (pipe (ls_cmd ls_space) (ls_cmd ls)))
        (record shell { status = 0 })
run_cmd-wired_example =
    run_cmd-wired world shell 3 [] ls_space (spaced_ls ∷ []) (ls_cmd ls_space) (ls_cmd ls)
      all_succeed-AllWell terminal-IsReady (omega arith) (omega arith) (refl, (refl, (refl, tt)))
      (refl, (refl, (refl, tt))) (spaced_ls-IsSegment, tt) (omega arith) no_builtin two_ls
      (omega arith, omega arith)

abbrev home_line : List ℕ
home_line = b'c' ∷ b'd' ∷ b' ' ∷ b'/' ∷ 0 ∷ []

cd_run :
    run_cmd world shell home_line
    ≡ ran_builtin (record { prompt = b'(' ∷ b'/' ∷ b')' ∷ []; status = 0 })
unfolding run_cmd streqword cd_path string_at behind_blanks change_directory
cd_run = refl

-- ===== src/Shell/Run.antt =====
-- runcmd.c, builtin.c, printstatus.c and readline.c. Process groups are left out, and so is what is
-- printed but by `pwd`. A status is a bit pattern of 32 bits.
pub mod Lines
use sisop_mendez.Base.{
  Bool, List, Option, [], drop, false, get_or, if◌then◌else◌, length, none, replicate, some, suc,
  take, true, zero, ℕ, ◌%◌, ◌&&◌, ◌*◌, ◌++◌, ◌+◌, ◌-◌, ◌/◌, ◌==◌, ◌^◌, ◌||◌, ◌∷◌,
}
use sisop_mendez.Shell.Exec.{
  Run, SystemCalls, Table, crashes, exec_cmd, executes, exits, not_started, piped, started,
}
use sisop_mendez.Shell.Parsing.{Environment, parse_line}
use sisop_mendez.Shell.Types.{
  Cmd, Parsed, Str, back, buflen, exec, null, overflow, parsed, pipe, unfinished,
}

-- The globals `prompt` and `status`.
pub record Shell : Type 0 where
  pub prompt : Str
  pub status : ℕ

abbrev pub prmtlen : ℕ
prmtlen = 1024

-- What the calls of the builtins answer.
pub record Place : Type 0 where
  pub home : Option Str
  pub chdir : Str → Bool
  pub getcwd : Option Str

-- `read_line` on the bytes of the input, with the `n` bytes of the buffer that are left: the bytes
-- read and the input behind them. `end_of_input` is its NULL, `past_buffer` a write behind the array.
pub data ReadLine : Type 0 where
  line_read : List ℕ → List ℕ → ReadLine
  end_of_input : ReadLine
  past_buffer : ReadLine

unfoldable pub before_line : ℕ → ReadLine → ReadLine
before_line c (line_read s rest) = line_read (c ∷ s) rest
before_line c end_of_input = end_of_input
before_line c past_buffer = past_buffer

unfoldable pub read_bytes : ℕ → List ℕ → ReadLine
read_bytes n [] = end_of_input
read_bytes zero (c ∷ input) = past_buffer
read_bytes (suc n) (c ∷ input) =
    let rest = read_bytes n input in
    if c == 10 then line_read (replicate (suc n) 0) input else before_line c rest

abbrev pub read_line : List ℕ → ReadLine
read_line input = read_bytes buflen input

-- `streqword`: the word, and a blank or the end behind it.
unfoldable pub streqword : List ℕ → Str → Bool
streqword [] [] = true
streqword [] (w ∷ ws) = false
streqword (b ∷ buf) [] = b == b' ' || b == 0
streqword (b ∷ buf) (w ∷ ws) = b == w && streqword buf ws

abbrev pub exit_word : Str
exit_word = b'e' ∷ b'x' ∷ b'i' ∷ b't' ∷ []

abbrev pub cd_word : Str
cd_word = b'c' ∷ b'd' ∷ []

abbrev pub pwd_word : Str
pwd_word = b'p' ∷ b'w' ∷ b'd' ∷ []

-- The string at a pointer, and the pointer behind its first blanks.
unfoldable pub string_at : List ℕ → Str
string_at [] = []
string_at (b ∷ buf) = if b == 0 then [] else b ∷ string_at buf

unfoldable pub behind_blanks : List ℕ → List ℕ
behind_blanks [] = []
behind_blanks (b ∷ buf) = if b == b' ' then behind_blanks buf else b ∷ buf

-- The directory of `cd`; HOME may not be set.
unfoldable pub cd_path : Place → List ℕ → Option Str
cd_path place cmd =
    let path = string_at (behind_blanks (drop 2 cmd)) in
    if length path == 0 then place.home else some path

-- `snprintf(prompt, PRMTLEN, "(%s)", path)`
abbrev pub prompt_of : Str → Str
prompt_of path = take (prmtlen - 1) (b'(' ∷ path ++ b')' ∷ [])

unfoldable pub change_directory : Place → Shell → Option Str → Shell
change_directory place sh none = record sh { status = 1 }
change_directory place sh (some path) =
    if place.chdir path
    then record {
      prompt = prompt_of (elim place.getcwd [ none ↦ path | some cwd ↦ cwd ]);
      status = 0;
    }
    else record sh { status = 1 }

-- `cd` and `pwd`, for a line that calls them.
abbrev pub cd : Place → Shell → List ℕ → Shell
cd place sh cmd = change_directory place sh (cd_path place cmd)

abbrev pub pwd : Shell → Shell
pwd sh = record sh { status = 0 }

-- What `waitpid` stores for a child; `program_status` is that of a program, and 11 is SIGSEGV.
unfoldable pub wait_status : (List Str → ℕ) → ℕ → Run → ℕ
wait_status program_status unchanged (executes argv vars t) = program_status argv
wait_status program_status unchanged (exits code) = code * 256
wait_status program_status unchanged (piped left right t) = 0
wait_status program_status unchanged not_started = unchanged
wait_status program_status unchanged crashes = 11

-- `print_status_info`: the exit code of a status, or minus the number of a signal.
unfoldable pub decoded : ℕ → ℕ
decoded raw =
    if raw % 128 == 0
    then raw / 256 % 256
    else if raw % 128 == 127
    then 2 ^ 32 - raw / 256 % 256
    else 2 ^ 32 - raw % 128

unfoldable pub print_status_info : Cmd → ℕ → ℕ
print_status_info (pipe left right) raw = raw
print_status_info (exec e) raw = if length e.scmd == 0 then raw else decoded raw
print_status_info (back s e) raw = if length s == 0 then raw else decoded raw
print_status_info null raw = raw

-- What `run_cmd` did. The first four return 0.
pub data Ran : Type 0 where
  nothing_to_do : Shell → Ran
  ran_builtin : Shell → Ran
  foreground : Run → Shell → Ran
  background : Run → Shell → Ran
  exit_shell : Ran
  shell_crashes : Ran

pub record World : Type 0 where
  pub environment : Environment
  pub place : Place
  pub calls : SystemCalls
  pub table : Table
  pub program_status : List Str → ℕ
  pub before : ℕ

-- `run_cmd` from the command that was parsed.
unfoldable pub run_parsed : World → Shell → Parsed Cmd → Ran
run_parsed w sh (parsed null) = shell_crashes
run_parsed w sh (parsed (back s e)) =
    background (started (w.calls.forks 0) (exec_cmd w.calls 0 w.table (back s e))) sh
run_parsed w sh (parsed c) =
    let run = started (w.calls.forks 0) (exec_cmd w.calls 0 w.table c) in
    foreground run
      (record sh { status = print_status_info c (wait_status w.program_status sh.status run) })
run_parsed w sh overflow = shell_crashes
run_parsed w sh unfinished = shell_crashes

-- `run_cmd` on the buffer of `read_line`. `history` does nothing.
unfoldable pub run_cmd : World → Shell → List ℕ → Ran
run_cmd w sh cmd =
    if get_or cmd 0 0 == 0
    then nothing_to_do sh
    else if streqword cmd cd_word
    then ran_builtin (cd w.place sh cmd)
    else if streqword cmd exit_word
    then exit_shell
    else if streqword cmd pwd_word
    then ran_builtin (pwd sh)
    else run_parsed w sh (parse_line (length cmd + 1) w.environment w.before cmd)

-- ===== src/Shell/Types.antt =====
-- types.h and createcmd.c. A string is the list of its bytes before the NUL; `argc` and `eargc` are
-- the lengths of `argv` and `eargv`, and the process ids are not set before a command runs.
use sisop_mendez.Base.{List, [], if◌then◌else◌, length, ltb, ℕ}

abbrev pub Str : Type 0
Str = List ℕ

abbrev pub buflen : ℕ
buflen = 1024

abbrev pub maxargs : ℕ
maxargs = 20

abbrev pub argsize : ℕ
argsize = 1024

pub data CmdType : Type 0 where
  exec_type redir_type : CmdType

pub record ExecCmd : Type 0 where
  pub type : CmdType
  pub scmd : Str
  pub argv : List Str
  pub eargv : List Str
  pub out_file : Str
  pub in_file : Str
  pub err_file : Str

-- A pointer to a command, which may be NULL.
pub data Cmd : Type 0 where
  null : Cmd
  exec : ExecCmd → Cmd
  back : Str → ExecCmd → Cmd
  pipe : Cmd → Cmd → Cmd

-- What a step of the parser gives, with the loops that still run and the writes and reads outside
-- of a buffer.
pub data Parsed {ℓ} (A : Type ℓ) : Type ℓ where
  parsed : A → Parsed A
  overflow : Parsed A
  unfinished : Parsed A

abbrev pub then_parsed {ℓ κ} : {A : Type ℓ} {B : Type κ} → Parsed A → (A → Parsed B) → Parsed B
then_parsed (parsed a) f = f a
then_parsed overflow f = overflow
then_parsed unfinished f = unfinished

-- `strcpy` into a buffer of `size` bytes.
abbrev pub strcpy : ℕ → Str → Parsed Str
strcpy size s = if ltb (length s) size then parsed s else overflow

abbrev pub exec_cmd_create : Str → Parsed ExecCmd
exec_cmd_create buf_cmd = then_parsed (strcpy buflen buf_cmd) (λ s. parsed (record {
  type = exec_type;
  scmd = s;
  argv = [];
  eargv = [];
  out_file = [];
  in_file = [];
  err_file = [];
}))

abbrev pub back_cmd_create : ExecCmd → Cmd
back_cmd_create c = back c.scmd c

unfoldable pub pipe_cmd_create : Cmd → Cmd → Cmd
pipe_cmd_create left null = left
pipe_cmd_create left right = pipe left right

-- ===== src/Shell/Parsing.antt =====
-- parsing.c and the helpers of utils.c.
pub mod Words
pub mod Lines
use mathlib.Core.Option
use sisop_mendez.Base.{
  Bool, List, Option, [], drop, false, get_or, if◌then◌else◌, length, ltb, none, not, some, suc,
  take, true, zero, ℕ, ◌&&◌, ◌++◌, ◌+◌, ◌==◌, ◌||◌, ◌∷◌,
}
use sisop_mendez.Shell.Types.{
  Cmd, ExecCmd, Parsed, Str, argsize, back_cmd_create, exec, exec_cmd_create, maxargs, null,
  overflow, parsed, pipe_cmd_create, redir_type, strcpy, then_parsed, unfinished,
}

-- `block_contains`; `none` is -1.
unfoldable pub block_contains : Str → ℕ → Option ℕ
block_contains [] c = none
block_contains (b ∷ s) c = if b == c then some 0 else Option.map suc (block_contains s c)

-- The spaces that `split_line` skips.
unfoldable pub skip_spaces : List ℕ → Parsed (List ℕ)
skip_spaces [] = overflow
skip_spaces (b ∷ buf) = if b == b' ' then skip_spaces buf else parsed (b ∷ buf)

-- A string that was split, and what stands at the pointer returned.
pub record Split : Type 0 where
  pub left : Str
  pub right : List ℕ

abbrev pub prepend : ℕ → Split → Split
prepend b p = record { left = b ∷ p.left; right = p.right }

-- `split_line` on the bytes from `buf` to the end of the array.
unfoldable pub split_line : List ℕ → ℕ → Parsed Split
split_line [] splitter = overflow
split_line (b ∷ buf) splitter =
    if b == splitter || b == 0
    then then_parsed (skip_spaces buf) (λ r. parsed (record { left = []; right = r }))
    else then_parsed (split_line buf splitter) (λ p. parsed (prepend b p))

-- The token at the start of a string, and what follows it.
unfoldable pub token : Str → Str
token [] = []
token (b ∷ s) = if b == b' ' then [] else b ∷ token s

unfoldable pub after_token : Str → Str
after_token [] = []
after_token (b ∷ s) = if b == b' ' then s else after_token s

-- `get_token`; its buffer has ARGSIZE bytes.
abbrev pub get_token : Str → Parsed Str
get_token s = strcpy argsize (token s)

-- `parse_redir_flow` with the index of '<'; `none` is its `false`.
unfoldable pub redir_input : ExecCmd → Str → Option ℕ → Option ExecCmd
redir_input c arg none = none
redir_input c arg (some i) = some (record c { type = redir_type; in_file = drop 1 arg })

-- `parse_redir_flow` with the index of '>'.
unfoldable pub redir_output : ExecCmd → Str → Option ℕ → Option ExecCmd
redir_output c arg none = redir_input c arg (block_contains arg b'<')
redir_output c arg (some zero) = some (record c { type = redir_type; out_file = drop 1 arg })
redir_output c arg (some (suc zero)) = some (record c { type = redir_type; err_file = drop 2 arg })
redir_output c arg (some (suc (suc i))) = some (record c { type = redir_type })

abbrev pub parse_redir_flow : ExecCmd → Str → Option ExecCmd
parse_redir_flow c arg = redir_output c arg (block_contains arg b'>')

-- The test of `parse_environ_var`.
unfoldable pub is_environ_var : Str → Bool
is_environ_var arg = elim (block_contains arg b'=') [
  | some (suc i) ↦ elim (block_contains arg b'-') [ none ↦ true | some j ↦ false ]
  | _ ↦ false
]

-- `getenv`, the text that `sprintf` prints for `status`, and whether `realloc` succeeds.
pub record Environment : Type 0 where
  pub getenv : Str → Option Str
  pub status_text : Str
  pub realloc : Bool

-- `expand_environ_var` with the value that `getenv` gave.
unfoldable pub put_value : Environment → Str → Option Str → Str
put_value env name none = []
put_value env name (some v) =
    if ltb (length name + 1) (length v) && not env.realloc then b'$' ∷ name else v

-- `expand_environ_var` behind the '$'.
unfoldable pub expand_name : Environment → Str → Parsed Str
expand_name env name =
    if get_or name 0 0 == b'?'
    then strcpy 4 env.status_text
    else parsed (put_value env name (env.getenv name))

unfoldable pub expand_environ_var : Environment → Str → Parsed Str
expand_environ_var env [] = parsed []
expand_environ_var env (b ∷ name) = if b == b'$' then expand_name env name else parsed (b ∷ name)

-- `v[n++] = s` on an array of MAXARGS pointers.
abbrev pub push : List Str → Str → Parsed (List Str)
push v s = if ltb (length v) maxargs then parsed (v ++ s ∷ []) else overflow

abbrev pub push_argument : ExecCmd → Str → Parsed ExecCmd
push_argument c [] = parsed c
push_argument c (b ∷ s) =
    then_parsed (push c.argv (b ∷ s)) (λ argv. parsed (record c { argv = argv }))

-- The body of the loop of `parse_exec`, with what `parse_redir_flow` gave.
unfoldable pub parse_other : Environment → ExecCmd → Str → Option ExecCmd → Parsed ExecCmd
parse_other env c tok (some c') = parsed c'
parse_other env c tok none =
    if is_environ_var tok
    then then_parsed (push c.eargv tok) (λ eargv. parsed (record c { eargv = eargv }))
    else then_parsed (expand_environ_var env tok) (push_argument c)

abbrev pub parse_token : Environment → ExecCmd → Str → Parsed ExecCmd
parse_token env c tok = parse_other env c tok (parse_redir_flow c tok)

unfoldable pub parse_tokens : ℕ → Environment → ExecCmd → Str → Parsed ExecCmd
parse_tokens fuel env c [] = parsed c
parse_tokens zero env c (b ∷ s) = unfinished
parse_tokens (suc fuel) env c (b ∷ s) = then_parsed (get_token (b ∷ s)) (λ tok.
    then_parsed (parse_token env c tok) (λ c'. parse_tokens fuel env c' (after_token (b ∷ s))))

-- `c->argv[argc] = NULL` at the end of `parse_exec`.
abbrev pub end_argv : ExecCmd → Parsed ExecCmd
end_argv c = if ltb (length c.argv) maxargs then parsed c else overflow

unfoldable pub parse_exec : Environment → Str → Parsed ExecCmd
parse_exec env buf_cmd =
    then_parsed (exec_cmd_create buf_cmd)
      (λ c. then_parsed (parse_tokens (length buf_cmd) env c buf_cmd) end_argv)

-- `parse_back`, with the index of the '&'.
abbrev pub parse_back : Environment → Str → ℕ → Parsed Cmd
parse_back env buf_cmd i =
    then_parsed (parse_exec env (take i buf_cmd)) (λ c. parsed (back_cmd_create c))

abbrev pub parse_plain : Environment → Str → Parsed Cmd
parse_plain env buf_cmd = then_parsed (parse_exec env buf_cmd) (λ c. parsed (exec c))

-- `parse_cmd` on a string that is not empty; the byte `before` stands in front of it.
unfoldable pub parse_at : Environment → ℕ → Str → Option ℕ → Parsed Cmd
parse_at env before buf_cmd none = parse_plain env buf_cmd
parse_at env before buf_cmd (some idx) =
    if get_or (before ∷ buf_cmd) idx 0 == b'>'
    then parse_plain env buf_cmd
    else parse_back env buf_cmd idx

abbrev pub parse_some : Environment → ℕ → Str → Parsed Cmd
parse_some env before buf_cmd = parse_at env before buf_cmd (block_contains buf_cmd b'&')

unfoldable pub parse_cmd : Environment → ℕ → Str → Parsed Cmd
parse_cmd env before [] = parsed null
parse_cmd env before (b ∷ s) = parse_some env before (b ∷ s)

-- `parse_line`; the byte in front of a right part is a space or the NUL in place of the '|', and
-- only compared with '>'.
unfoldable pub parse_line : ℕ → Environment → ℕ → List ℕ → Parsed Cmd
parse_line zero env before buf = unfinished
parse_line (suc fuel) env before buf = then_parsed (split_line buf b'|') (λ p.
    then_parsed (parse_cmd env before p.left) (λ l.
      then_parsed (if get_or p.right 0 0 == 0 then parsed null else parse_line fuel env 0 p.right)
        (λ r. parsed (pipe_cmd_create l r))))

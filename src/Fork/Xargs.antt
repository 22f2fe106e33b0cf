-- ===== src/Fork/Xargs.antt =====
-- TPs/Fork/xargs.c, with NARGS 4. The lines are what getline gives, each with its newline, if it has
-- one; a command that was executed is the list of its arguments.
pub mod Batches
use sisop_mendez.Base.{
  Bool, List, Option, [], false, if◌then◌else◌, ltb, none, replicate, set, some, suc, true, ℕ, ◌+◌,
  ◌==◌, ◌∷◌,
}

abbrev pub nargs : ℕ
nargs = 4

-- A line without its newline at the end.
unfoldable pub chop : List ℕ → List ℕ
chop [] = []
chop (c ∷ []) = if c == 10 then [] else c ∷ []
chop (c ∷ (d ∷ s)) = c ∷ chop (d ∷ s)

-- `char *buffer[NARGS + 2]`; `none` is NULL.
abbrev pub Buffer : Type 0
Buffer = List (Option (List ℕ))

-- What `execvp` takes of the buffer: the strings in front of the first NULL.
unfoldable pub argv : Buffer → List (List ℕ)
argv [] = []
argv (none ∷ b) = []
argv (some s ∷ b) = s ∷ argv b

-- The commands executed, and whether each `fork` went well: the first failure ends the program.
pub data Ended : Type 0 where
  all_done : List (List (List ℕ)) → Ended
  fork_failed : List (List (List ℕ)) → Ended

unfoldable pub put_first : List (List ℕ) → Ended → Ended
put_first c (all_done cs) = all_done (c ∷ cs)
put_first c (fork_failed cs) = fork_failed (c ∷ cs)

-- `execute_command`, and `rest` behind it.
unfoldable pub execute_command : Bool → Buffer → Ended → Ended
execute_command true b rest = put_first (argv b) rest
execute_command false b rest = fork_failed []

-- The end of `process_input`.
unfoldable pub last_command : Bool → Buffer → ℕ → Ended
last_command forks b num_args =
    if ltb 0 num_args
    then execute_command forks (set b (num_args + 1) none) (all_done [])
    else all_done []

-- `process_input`; `forks i` is whether the `i`th call of `fork` from here succeeds.
unfoldable pub process_input : (ℕ → Bool) → Buffer → ℕ → List (List ℕ) → Ended
process_input forks b num_args [] = last_command (forks 0) b num_args
process_input forks b num_args (line ∷ lines) =
    let b' = set b (num_args + 1) (some (chop line)) in
    elim (num_args + 1 == nargs) [
      | true ↦ execute_command (forks 0) b' (process_input (λ i. forks (suc i)) b' 0 lines)
      | false ↦ process_input forks b' (num_args + 1) lines
    ]

-- `main` with the command `argv[1]`, if there is one; `none` is the exit with ERROR_ARGS.
unfoldable pub xargs : (ℕ → Bool) → Option (List ℕ) → List (List ℕ) → Option Ended
xargs forks none lines = none
xargs forks (some command) lines =
    some (process_input forks (some command ∷ replicate (nargs + 1) none) 0 lines)

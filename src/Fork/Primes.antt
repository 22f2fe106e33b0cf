-- ===== src/Fork/Primes.antt =====
-- TPs/Fork/primes.c. A pipe delivers in order what is written to it, and then its end, since each
-- process closes the ends that it does not use; so a process is a function of what it reads.
pub mod Sieve
use mathlib.Core.Option
use sisop_mendez.Base.{
  Bool, List, Option, [], false, if◌then◌else◌, leb, length, none, not, some, suc, true, zero, ℕ,
  ◌%◌, ◌+◌, ◌-◌, ◌==◌, ◌^◌, ◌∷◌,
}

pub data Code : Type 0 where
  success error_args error_pipe error_fork : Code

-- A process: the prime that it prints, and its exit code.
pub record Process : Type 0 where
  pub printed : Option ℕ
  pub code : Code

-- What the calls of a process answer: `pipe`, `fork`, and the `write` of each number.
pub record Answers : Type 0 where
  pub pipe_ok : Bool
  pub fork_ok : Bool
  pub write_ok : ℕ → Bool

-- `send_primes_candidates`: what goes to the next process, and whether all writes went well.
unfoldable pub send_primes_candidates : (ℕ → Bool) → ℕ → List ℕ → List ℕ × Bool
send_primes_candidates write_ok p [] = ([], true)
send_primes_candidates write_ok p (n ∷ ns) =
    let rest = send_primes_candidates write_ok p ns in
    if n % p == 0 then rest else if write_ok n then (n ∷ rest.0, rest.1) else ([], false)

-- `receive_numbers`: the process that reads the numbers, and those that come behind it. The process
-- at the end of the chain has the number `depth`. Each process takes a number, so that one more
-- call than there are numbers is enough.
unfoldable pub receive_numbers : ℕ → (ℕ → Answers) → ℕ → List ℕ → List Process
receive_numbers zero os depth ns = []
receive_numbers (suc n) os depth [] = record { printed = none; code = success } ∷ []
receive_numbers (suc n) os depth (p ∷ ns) =
    let (sent, written) = send_primes_candidates (os depth).write_ok p ns in
    let next = receive_numbers n os (suc depth) sent in
    if not (os depth).pipe_ok
    then record { printed = some p; code = error_pipe } ∷ []
    else if not (os depth).fork_ok
    then record { printed = some p; code = error_fork } ∷ []
    else record { printed = some p; code = if written then success else error_pipe } ∷ next

-- `INT_MAX`
abbrev pub int_max : ℕ
int_max = 2 ^ 31 - 1

-- The loop of `send_numbers` at `p`, which stops at the first write that fails. `none`: it still
-- runs, or `p++` overflows, behind which `p <= n` has no end.
unfoldable pub send_numbers : ℕ → (ℕ → Bool) → ℕ → ℕ → Option (List ℕ)
send_numbers zero write_ok p n = none
send_numbers (suc fuel) write_ok p n =
    let rest = Option.map (λ ns. p ∷ ns) (send_numbers fuel write_ok (p + 1) n) in
    if not (leb p n)
    then some []
    else if not (write_ok p)
    then some []
    else if p == int_max
    then none
    else rest

-- `main` with the number of its argument, if there is one: its own exit code, and the processes. A
-- number below 0 sends nothing, as 0 does. `none`: the loop of `send_numbers` has no end.
unfoldable pub main : (ℕ → Answers) → Option ℕ → Option (Code × List Process)
main os none = some (error_args, [])
main os (some n) =
    if not (os 0).pipe_ok
    then some (error_pipe, [])
    else if not (os 0).fork_ok
    then some (error_fork, [])
    else Option.map (λ ns. (success, receive_numbers (length ns + 1) os 1 ns))
        (send_numbers (n + 1) (os 0).write_ok 2 n)

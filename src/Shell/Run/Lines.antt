-- ===== src/Shell/Run/Lines.antt =====
-- Reading a line, and running a pipeline from it.
use sisop_mendez.Base.{
  All, Bool, Lacks, List, [], arith, false, get_or, length, length-append, refl, replicate, suc,
  zero, ℕ, ◌++◌, ◌+◌, ◌-◌, ◌<◌, ◌==◌, ◌||◌, ◌∙◌, ◌∷◌, ◌≡◌, ◌≢◌, ◌≤◌,
}
use sisop_mendez.Shell.Exec.{Table, open_max}
use sisop_mendez.Shell.Exec.Descriptors.{AllWell, IsReady}
use sisop_mendez.Shell.Exec.Pipes.{exec_cmd-wired}
use sisop_mendez.Shell.Exec.Wiring.{HasPrograms, wired}
use sisop_mendez.Shell.Parsing.Lines.{IsSegment, buffer, parse_line-pipeline, pipeline, trimmed}
use sisop_mendez.Shell.Run.{
  Shell, World, before_line, cd_word, exit_word, foreground, line_read, past_buffer,
  print_status_info, pwd_word, read_bytes, read_line, run_cmd, run_parsed, streqword, wait_status,
}
use sisop_mendez.Shell.Types.{Cmd, Str, buflen, parsed, pipe}

read_bytes-line :
    (n : ℕ) (s rest : List ℕ)
    → Lacks 10 s
    → length s < n
    → read_bytes n (s ++ 10 ∷ rest) ≡ line_read (s ++ replicate (n - length s) 0) rest
unfolding read_bytes before_line
read_bytes-line zero s rest h lt = absurd (omega arith)
read_bytes-line (suc n) [] rest h lt = let all : suc n - 0 ≡ suc n = omega arith in rw all refl
read_bytes-line (suc n) (c ∷ s) rest (hc, h) lt =
    let less : suc n - suc (length s) ≡ n - length s = omega arith in
    rw (hc, read_bytes-line n s rest h (omega arith), less) refl

read_bytes-long :
    (n : ℕ) (s rest : List ℕ)
    → Lacks 10 s
    → n ≤ length s
    → read_bytes n (s ++ 10 ∷ rest) ≡ past_buffer
unfolding read_bytes before_line
read_bytes-long zero [] rest h le = refl
read_bytes-long zero (c ∷ s) rest h le = refl
read_bytes-long (suc n) [] rest h le = absurd (omega arith)
read_bytes-long (suc n) (c ∷ s) rest (hc, h) le =
    rw (hc, read_bytes-long n s rest h (omega arith)) refl

-- A line of less than 1024 bytes is read into the buffer, with NULs behind it; a longer one is
-- written past the end of the buffer.
pub read_line-bounds :
    (s rest : List ℕ)
    → Lacks 10 s
    → (length s < buflen
        → read_line (s ++ 10 ∷ rest) ≡ line_read (s ++ replicate (buflen - length s) 0) rest)
      × (buflen ≤ length s → read_line (s ++ 10 ∷ rest) ≡ past_buffer)
read_line-bounds s rest h = (read_bytes-line buflen s rest h, read_bytes-long buflen s rest h)

length-buffer :
    (rest : List ℕ) (s : Str) (ss : List Str) → length (s ∷ ss) ≤ length (buffer rest (s ∷ ss)) + 1
length-buffer rest s [] = omega arith
length-buffer rest s (t ∷ ss) =
    omega (arith, length-append s (b'|' ∷ buffer rest (t ∷ ss)), length-buffer rest t ss)

wired-status :
    (program_status : List Str → ℕ) (old : ℕ) (t : Table) (left right : Cmd)
    → wait_status program_status old (wired 0 t (pipe left right)) ≡ 0
unfolding wait_status wired
wired-status program_status old t left right = refl

-- A line that calls a builtin.
abbrev pub is_builtin : List ℕ → Bool
is_builtin cmd = streqword cmd cd_word || streqword cmd exit_word || streqword cmd pwd_word

-- A line of segments with bars between them, with any spaces behind a bar and then another byte,
-- which is no call of a builtin and whose parts, without the spaces behind the bars, parse into
-- a pipe of commands with programs, runs the wired programs of that pipe if every call of the
-- system succeeds, the standard descriptors are open and all from some number on, at most
-- OPEN_MAX less four, are free; it always leaves the status 0.
pub run_cmd-wired :
    (w : World) (sh : Shell) (b : ℕ) (rest : List ℕ) (s : Str) (ss : List Str) (left right : Cmd)
    → AllWell w.calls
    → IsReady w.table b
    → 3 ≤ b
    → b + 4 ≤ open_max
    → Lacks b'|' s
    → Lacks 0 s
    → All IsSegment ss
    → get_or (buffer rest (s ∷ ss)) 0 0 ≢ 0
    → is_builtin (buffer rest (s ∷ ss)) ≡ false
    → pipeline w.environment w.before (s ∷ trimmed ss) ≡ parsed (pipe left right)
    → HasPrograms (pipe left right)
    → run_cmd w sh (buffer rest (s ∷ ss))
      ≡ foreground (wired 0 w.table (pipe left right)) (record sh { status = 0 })
unfolding run_cmd run_parsed wait_status print_status_info
run_cmd-wired w sh b rest s ss left right well h le fits bars nuls segments first no_builtin parses
      programs =
    let line = buffer rest (s ∷ ss) in
    let filled : (get_or line 0 0 == 0) ≡ false = ground (arith, first) in
    let no_cd : streqword line cd_word ≡ false = ground (arith, no_builtin) in
    let no_exit : streqword line exit_word ≡ false = ground (arith, no_builtin) in
    let no_pwd : streqword line pwd_word ≡ false = ground (arith, no_builtin) in
    let tree =
      parse_line-pipeline (length line + 1) w.environment w.before rest s ss bars nuls segments
        (length-buffer rest s ss)
      ∙ parses in
    let run = exec_cmd-wired w.calls 0 b w.table (pipe left right) well h le fits programs in
    rw
      (
        filled,
        no_cd,
        no_exit,
        no_pwd,
        tree,
        well.forks 0,
        run,
        wired-status w.program_status sh.status w.table left right,
      )
      refl

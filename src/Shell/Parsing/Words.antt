-- ===== src/Shell/Parsing/Words.antt =====
-- `parse_exec` on plain words, one space between two of them.
use sisop_mendez.Base.{
  All, Bool, Bool-cases, Lacks, List, [], ap, arith, false, get_or, if◌then◌else◌, inl, inr, leb,
  length, length-append, ltb, ltb→lt, lt→ltb, none, refl, suc, true, zero, ℕ, ◌++◌, ◌+◌, ◌<◌, ◌==◌,
  ◌∙◌, ◌∷◌, ◌≡◌, ◌≢◌, ◌≤◌,
}
use sisop_mendez.Shell.Parsing.{
  Environment, after_token, block_contains, end_argv, expand_environ_var, is_environ_var,
  parse_exec, parse_other, parse_token, parse_tokens, redir_input, redir_output, token,
}
use sisop_mendez.Shell.Types.{
  ExecCmd, Parsed, Str, argsize, buflen, exec_type, maxargs, overflow, parsed, then_parsed,
}

-- A word that the parser takes as an argument, as it stands.
pub record IsWord (w : Str) : Type 0 where
  pub nonempty : w ≢ []
  pub fits : length w < argsize
  pub spaceless : Lacks b' ' w
  pub no_output : block_contains w b'>' ≡ none
  pub no_input : block_contains w b'<' ≡ none
  pub no_variable : is_environ_var w ≡ false
  pub no_dollar : (get_or w 0 0 == b'$') ≡ false

abbrev pub join : List Str → Str
join [] = []
join (w ∷ []) = w
join (w ∷ v ∷ ws) = w ++ b' ' ∷ join (v ∷ ws)

token-end : (w : Str) → Lacks b' ' w → token w ≡ w
unfolding token
token-end [] h = refl
token-end (b ∷ w) (h, hs) = rw (h, token-end w hs) refl

token-space : (w s : Str) → Lacks b' ' w → token (w ++ b' ' ∷ s) ≡ w
unfolding token
token-space [] s h = refl
token-space (b ∷ w) s (h, hs) = rw (h, token-space w s hs) refl

after_token-end : (w : Str) → Lacks b' ' w → after_token w ≡ []
unfolding after_token
after_token-end [] h = refl
after_token-end (b ∷ w) (h, hs) = rw (h, after_token-end w hs) refl

after_token-space : (w s : Str) → Lacks b' ' w → after_token (w ++ b' ' ∷ s) ≡ s
unfolding after_token
after_token-space [] s h = refl
after_token-space (b ∷ w) s (h, hs) = rw (h, after_token-space w s hs) refl

abbrev with_argv : ExecCmd → List Str → ExecCmd
with_argv c argv = record c { argv = argv }

-- A word is pushed, or there is no room for it.
parse_token-word :
    (env : Environment) (c : ExecCmd) (w : Str)
    → IsWord w
    → parse_token env c w
      ≡ (if ltb (length c.argv) maxargs then parsed (with_argv c (c.argv ++ w ∷ [])) else overflow)
unfolding parse_other redir_output redir_input expand_environ_var
parse_token-word env c [] i = absurd (i.nonempty refl)
parse_token-word env c (b ∷ w) i =
    rw (i.no_output, i.no_input, i.no_variable, i.no_dollar) (room (ltb (length c.argv) maxargs))
  where
    room :
        (fits : Bool)
        → then_parsed
            (if fits then parsed (c.argv ++ (b ∷ w) ∷ []) else overflow)
            (λ argv. parsed (with_argv c argv))
          ≡ (if fits then parsed (with_argv c (c.argv ++ (b ∷ w) ∷ [])) else overflow)
    room true = refl
    room false = refl

parse_tokens-word :
    (fuel : ℕ) (env : Environment) (c : ExecCmd) (w s r : Str)
    → IsWord w
    → s ≢ []
    → token s ≡ w
    → after_token s ≡ r
    → parse_tokens (suc fuel) env c s ≡ (
        if ltb (length c.argv) maxargs
        then parse_tokens fuel env (with_argv c (c.argv ++ w ∷ [])) r
        else overflow)
unfolding parse_tokens
parse_tokens-word fuel env c w [] r i nonempty t a = absurd (nonempty refl)
parse_tokens-word fuel env c w (b ∷ s) r i nonempty t a =
    rw (t, a, lt→ltb (length w) argsize i.fits, parse_token-word env c w i)
      (room (ltb (length c.argv) maxargs))
  where
    room :
        (fits : Bool)
        → then_parsed
            (if fits then parsed (with_argv c (c.argv ++ w ∷ [])) else overflow)
            (λ c'. parse_tokens fuel env c' r)
          ≡ (if fits then parse_tokens fuel env (with_argv c (c.argv ++ w ∷ [])) r else overflow)
    room true = refl
    room false = refl

append_assoc : (xs : List Str) (w : Str) (ws : List Str) → (xs ++ w ∷ []) ++ ws ≡ xs ++ w ∷ ws
append_assoc [] w ws = refl
append_assoc (x ∷ xs) w ws = ap (◌∷◌ x) (append_assoc xs w ws)

append_nil : (xs : List Str) → xs ++ [] ≡ xs
append_nil [] = refl
append_nil (x ∷ xs) = ap (◌∷◌ x) (append_nil xs)

-- What is left of the words when the array holds MAXARGS of them.
pub pushed : ExecCmd → List Str → Parsed ExecCmd
pushed c ws =
    if leb (length c.argv + length ws) maxargs
    then parsed (with_argv c (c.argv ++ ws))
    else overflow

first_rest :
    (w : Str) (ws : List Str)
    → IsWord w
    → (token (join (w ∷ ws)) ≡ w) × (after_token (join (w ∷ ws)) ≡ join ws) × (join (w ∷ ws) ≢ [])
first_rest w [] i = (token-end w i.spaceless, after_token-end w i.spaceless, i.nonempty)
first_rest w (v ∷ ws) i = (token-space w _ i.spaceless, after_token-space w _ i.spaceless, longer)
  where
    longer : w ++ b' ' ∷ join (v ∷ ws) ≢ []
    longer e = ground (arith, ap length e, length-append w (b' ' ∷ join (v ∷ ws)))

length-join : (w : Str) (ws : List Str) → IsWord w → length (join ws) < length (join (w ∷ ws))
length-join [] ws i = absurd (i.nonempty refl)
length-join (b ∷ w) [] i = omega arith
length-join (b ∷ w) (v ∷ ws) i = omega (arith, length-append w (b' ' ∷ join (v ∷ ws)))

parse_tokens-nil :
    (fuel : ℕ) (env : Environment) (c : ExecCmd) → parse_tokens fuel env c [] ≡ parsed c
unfolding parse_tokens
parse_tokens-nil zero env c = refl
parse_tokens-nil (suc fuel) env c = refl

pushed-cons :
    (c : ExecCmd) (w : Str) (ws : List Str)
    → length c.argv < maxargs
    → pushed (with_argv c (c.argv ++ w ∷ [])) ws ≡ pushed c (w ∷ ws)
unfolding pushed
pushed-cons c w ws h =
    rw (length-append c.argv (w ∷ []), append_assoc c.argv w ws)
      (ap (λ n. if leb n maxargs then parsed (with_argv c (c.argv ++ w ∷ ws)) else overflow)
        (omega arith))

parse_tokens-join :
    (fuel : ℕ) (env : Environment) (c : ExecCmd) (ws : List Str)
    → All IsWord ws
    → length (join ws) ≤ fuel
    → length c.argv ≤ maxargs
    → parse_tokens fuel env c (join ws) ≡ pushed c ws
unfolding pushed
parse_tokens-join fuel env c [] words enough room =
    let fits : leb (length c.argv + 0) maxargs ≡ true = ground arith in
    parse_tokens-nil fuel env c ∙ rw (fits, append_nil c.argv) refl
parse_tokens-join zero env c (w ∷ ws) (i, words) enough room =
    absurd (omega (arith, length-join w ws i))
parse_tokens-join (suc fuel) env c (w ∷ ws) (i, words) enough room =
    let (t, a, nonempty) = first_rest w ws i in
    parse_tokens-word fuel env c w (join (w ∷ ws)) (join ws) i nonempty t a
    ∙ elim (Bool-cases (ltb (length c.argv) maxargs)) [
      | inl fits ↦ rw fits (
          parse_tokens-join fuel env (with_argv c (c.argv ++ w ∷ [])) ws words
            (omega (arith, length-join w ws i))
            (omega (arith, length-append c.argv (w ∷ []), ltb→lt (length c.argv) maxargs fits))
          ∙ pushed-cons c w ws (ltb→lt (length c.argv) maxargs fits))
      | inr full ↦
          let over : leb (length c.argv + suc (length ws)) maxargs ≡ false = ground arith in
          rw (full, over) refl
    ]

-- The command that `parse_exec` makes of its words.
abbrev pub plain : List Str → ExecCmd
plain ws = record {
  type = exec_type;
  scmd = join ws;
  argv = ws;
  eargv = [];
  out_file = [];
  in_file = [];
  err_file = [];
}

-- Up to 19 plain words, one space between two of them, are the arguments of the command; 20 and
-- more do not fit into its array, which a NULL ends.
pub parse_exec-join :
    (env : Environment) (ws : List Str)
    → All IsWord ws
    → length (join ws) < buflen
    → parse_exec env (join ws) ≡ (if ltb (length ws) maxargs then parsed (plain ws) else overflow)
unfolding parse_exec pushed
parse_exec-join env ws words h =
    let c = with_argv (plain ws) [] in
    rw
      (
        lt→ltb (length (join ws)) buflen h,
        parse_tokens-join (length (join ws)) env c ws words (omega arith) (omega arith),
      )
      room
  where
    room :
        then_parsed (pushed (with_argv (plain ws) []) ws) end_argv
        ≡ (if ltb (length ws) maxargs then parsed (plain ws) else overflow)
    room = elim (Bool-cases (leb (0 + length ws) maxargs)) [
      | inl fits ↦ rw fits refl
      | inr full ↦ let over : ltb (length ws) maxargs ≡ false = ground arith in rw (full, over) refl
    ]

-- ===== src/Shell/Parsing/Lines.antt =====
-- `parse_line` on a pipeline, and `parse_cmd` on a command for the background.
use mathlib.Core.Path.{subst}
use sisop_mendez.Base.{
  All, Bool-cases, Lacks, List, [], arith, false, get_or, if◌then◌else◌, inl, inr, length, refl,
  some, suc, take, take-append, true, zero, ℕ, ◌++◌, ◌==◌, ◌||◌, ◌∙◌, ◌∷◌, ◌≡◌, ◌≢◌, ◌≤◌,
}
use sisop_mendez.Shell.Parsing.{
  Environment, Split, block_contains, parse_at, parse_cmd, parse_exec, parse_line, parse_some,
  prepend, skip_spaces, split_line,
}
use sisop_mendez.Shell.Types.{
  Cmd, Parsed, Str, back, exec, null, overflow, parsed, pipe_cmd_create, then_parsed, unfinished,
}

-- A string without the spaces in front.
unfoldable pub behind_spaces : Str → Str
behind_spaces [] = []
behind_spaces (b ∷ s) = let rest = behind_spaces s in if b == b' ' then rest else b ∷ s

-- What stands behind a bar, spaces in front included.
pub record IsSegment (s : Str) : Type 0 where
  pub nonblank : behind_spaces s ≢ []
  pub barless : Lacks b'|' s
  pub endless : Lacks 0 s

-- The buffer that holds the segments, with a bar between two of them, and NULs behind.
abbrev pub buffer : List ℕ → List Str → List ℕ
buffer rest [] = 0 ∷ 0 ∷ rest
buffer rest (s ∷ []) = s ++ 0 ∷ 0 ∷ rest
buffer rest (s ∷ t ∷ ss) = s ++ b'|' ∷ buffer rest (t ∷ ss)

-- Each string is a command, and the pipes nest to the right.
abbrev pub pipeline : Environment → ℕ → List Str → Parsed Cmd
pipeline env before [] = parsed null
pipeline env before (s ∷ []) = parse_cmd env before s
pipeline env before (s ∷ t ∷ ss) =
    then_parsed (parse_cmd env before s)
      (λ l. then_parsed (pipeline env 0 (t ∷ ss)) (λ r. parsed (pipe_cmd_create l r)))

split_line-stop :
    (s : Str) (stop : ℕ) (buf : List ℕ)
    → Lacks b'|' s
    → Lacks 0 s
    → (stop == b'|' || stop == 0) ≡ true
    → split_line (s ++ stop ∷ buf) b'|'
      ≡ then_parsed (skip_spaces buf) (λ r. parsed (record { left = s; right = r }))
unfolding split_line
split_line-stop [] stop buf bars nuls h = rw h refl
split_line-stop (b ∷ s) stop buf (bar, bars) (nul, nuls) h =
    rw (bar, nul, split_line-stop s stop buf bars nuls h) (pairs (skip_spaces buf))
  where
    ended : Str → List ℕ → Split
    ended s r = record { left = s; right = r }

    pairs :
        (o : Parsed (List ℕ))
        → then_parsed (then_parsed o (λ r. parsed (ended s r))) (λ p. parsed (prepend b p))
          ≡ then_parsed o (λ r. parsed (ended (b ∷ s) r))
    pairs (parsed r) = refl
    pairs overflow = refl
    pairs unfinished = refl

skip_spaces-none :
    (b : ℕ) (buf : List ℕ) → (b == b' ') ≡ false → skip_spaces (b ∷ buf) ≡ parsed (b ∷ buf)
unfolding skip_spaces
skip_spaces-none b buf h = rw h refl

-- Behind the spaces stands a byte of the string.
skip_spaces-append :
    (s buf : List ℕ)
    → behind_spaces s ≢ []
    → Lacks 0 s
    → (skip_spaces (s ++ buf) ≡ parsed (behind_spaces s ++ buf))
      × ((get_or (behind_spaces s ++ buf) 0 0 == 0) ≡ false)
unfolding skip_spaces behind_spaces
skip_spaces-append [] buf some_byte nuls = absurd (some_byte refl)
skip_spaces-append (b ∷ s) buf some_byte (nul, nuls) = elim (Bool-cases (b == b' ')) [
  | inl space ↦
      let shorter = rest_of b s space some_byte in rw space (skip_spaces-append s buf shorter nuls)
  | inr other ↦ rw other (refl, nul)
]
  where
    rest_of :
        (b : ℕ) (s : Str)
        → (b == b' ') ≡ true
        → (if b == b' ' then behind_spaces s else b ∷ s) ≢ []
        → behind_spaces s ≢ []
    rest_of b s space some_byte =
        subst (λ e. (if e then behind_spaces s else b ∷ s) ≢ []) space some_byte

-- Behind a bar, the spaces of the next segment are skipped.
skip_spaces-buffer :
    (rest : List ℕ) (s : Str) (ss : List Str)
    → IsSegment s
    → (skip_spaces (buffer rest (s ∷ ss)) ≡ parsed (buffer rest (behind_spaces s ∷ ss)))
      × ((get_or (buffer rest (behind_spaces s ∷ ss)) 0 0 == 0) ≡ false)
skip_spaces-buffer rest s [] i = skip_spaces-append s _ i.nonblank i.endless
skip_spaces-buffer rest s (t ∷ ss) i = skip_spaces-append s _ i.nonblank i.endless

Lacks-behind_spaces : (c : ℕ) (s : Str) → Lacks c s → Lacks c (behind_spaces s)
unfolding behind_spaces
Lacks-behind_spaces c [] h = tt
Lacks-behind_spaces c (b ∷ s) (h, hs) = elim (Bool-cases (b == b' ')) [
  | inl space ↦ rw space (Lacks-behind_spaces c s hs)
  | inr other ↦ rw other (h, hs)
]

-- The segments behind a bar, without the spaces in front.
abbrev pub trimmed : List Str → List Str
trimmed [] = []
trimmed (s ∷ ss) = behind_spaces s ∷ trimmed ss

pipe_null : (c : Parsed Cmd) → then_parsed c (λ l. parsed (pipe_cmd_create l null)) ≡ c
unfolding pipe_cmd_create
pipe_null (parsed c) = refl
pipe_null overflow = refl
pipe_null unfinished = refl

-- `parse_line` ends, and makes the pipeline of the segments.
pub parse_line-pipeline :
    (fuel : ℕ) (env : Environment) (before : ℕ) (rest : List ℕ) (s : Str) (ss : List Str)
    → Lacks b'|' s
    → Lacks 0 s
    → All IsSegment ss
    → length (s ∷ ss) ≤ fuel
    → parse_line fuel env before (buffer rest (s ∷ ss)) ≡ pipeline env before (s ∷ trimmed ss)
unfolding parse_line
parse_line-pipeline zero env before rest s ss bars nuls segments enough = absurd (omega arith)
parse_line-pipeline (suc fuel) env before rest s [] bars nuls segments enough =
    rw (split_line-stop s 0 (0 ∷ rest) bars nuls refl, skip_spaces-none 0 rest refl)
      (pipe_null (parse_cmd env before s))
parse_line-pipeline (suc fuel) env before rest s (t ∷ ss) bars nuls (i, segments) enough =
    let (skips, more) = skip_spaces-buffer rest t ss i in
    rw
      (
        split_line-stop s b'|' (buffer rest (t ∷ ss)) bars nuls refl,
        skips,
        more,
        parse_line-pipeline fuel env 0 rest (behind_spaces t) ss
            (Lacks-behind_spaces b'|' t i.barless) (Lacks-behind_spaces 0 t i.endless) segments
            (omega arith),
      )
      refl

block_contains-append :
    (s t : Str) (c : ℕ) → Lacks c s → block_contains (s ++ c ∷ t) c ≡ some (length s)
unfolding block_contains
block_contains-append [] t c h = ground arith
block_contains-append (b ∷ s) t c (h, hs) = rw (h, block_contains-append s t c hs) refl

get_or-append : (s t : Str) (x : ℕ) → get_or (x ∷ s ++ t) (length s) 0 ≡ get_or (x ∷ s) (length s) 0
get_or-append [] t x = refl
get_or-append (b ∷ s) t x = get_or-append s t b

take-length : (s t : Str) → take (length s) (s ++ t) ≡ s
take-length s t = take-append (length s) s t refl

-- The first '&' of a command alone decides: behind a '>' it is part of an argument, and so is any
-- later one; otherwise what stands in front of it runs in the background, and the rest is dropped.
pub parse_cmd-ampersand :
    (env : Environment) (before : ℕ) (s t : Str)
    → Lacks b'&' s
    → parse_cmd env before (s ++ b'&' ∷ t) ≡ (
        if get_or (before ∷ s) (length s) 0 == b'>'
        then then_parsed (parse_exec env (s ++ b'&' ∷ t)) (λ c. parsed (exec c))
        else then_parsed (parse_exec env s) (λ c. parsed (back c.scmd c)))
unfolding parse_cmd parse_at
parse_cmd-ampersand env before s t h =
    some_cmd s
    ∙ rw
        (
          block_contains-append s t b'&' h,
          get_or-append s (b'&' ∷ t) before,
          take-length s (b'&' ∷ t),
        )
        refl
  where
    some_cmd :
        (s : Str) → parse_cmd env before (s ++ b'&' ∷ t) ≡ parse_some env before (s ++ b'&' ∷ t)
    some_cmd [] = refl
    some_cmd (b ∷ s) = refl

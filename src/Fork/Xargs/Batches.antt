-- ===== src/Fork/Xargs/Batches.antt =====
-- `xargs` executes its command on four lines at a time.
use sisop_mendez.Base.{Bool, List, Option, [], ap, none, refl, some, true, ℕ, ◌∷◌, ◌≡◌}
use sisop_mendez.Fork.Xargs.{
  all_done, argv, chop, execute_command, last_command, process_input, put_first, xargs,
}

-- The lines four at a time, and what is left.
unfoldable pub batches : List (List ℕ) → List (List (List ℕ))
batches [] = []
batches (a ∷ (b ∷ (c ∷ (d ∷ rest)))) = (chop a ∷ chop b ∷ chop c ∷ chop d ∷ []) ∷ batches rest
batches (a ∷ (b ∷ (c ∷ []))) = (chop a ∷ chop b ∷ chop c ∷ []) ∷ []
batches (a ∷ (b ∷ [])) = (chop a ∷ chop b ∷ []) ∷ []
batches (a ∷ []) = (chop a ∷ []) ∷ []

abbrev pub always : ℕ → Bool
always i = true

unfoldable pub commands : List ℕ → List (List (List ℕ)) → List (List (List ℕ))
commands command [] = []
commands command (b ∷ bs) = (command ∷ b) ∷ commands command bs

-- From any arguments of earlier commands in the buffer, which ends with NULL.
process_input-batches :
    (command : List ℕ) (a b c d : Option (List ℕ)) (lines : List (List ℕ))
    → process_input always (some command ∷ a ∷ b ∷ c ∷ d ∷ none ∷ []) 0 lines
      ≡ all_done (commands command (batches lines))
unfolding process_input execute_command last_command argv batches commands put_first
process_input-batches command a b c d [] = refl
process_input-batches command a b c d (l1 ∷ (l2 ∷ (l3 ∷ (l4 ∷ rest)))) =
    let h =
      process_input-batches command (some (chop l1)) (some (chop l2)) (some (chop l3))
        (some (chop l4)) rest in
    ap (put_first (command ∷ chop l1 ∷ chop l2 ∷ chop l3 ∷ chop l4 ∷ [])) h
process_input-batches command a b c d (l1 ∷ (l2 ∷ (l3 ∷ []))) = refl
process_input-batches command a b c d (l1 ∷ (l2 ∷ [])) = refl
process_input-batches command a b c d (l1 ∷ []) = refl

-- If every `fork` succeeds, `xargs` executes its command on the lines of the input, without their
-- newlines and in order, four at a time, and the last time on those that are left, if any are.
pub xargs-batches :
    (command : List ℕ) (lines : List (List ℕ))
    → xargs always (some command) lines ≡ some (all_done (commands command (batches lines)))
unfolding xargs
xargs-batches command lines = ap some (process_input-batches command none none none none lines)

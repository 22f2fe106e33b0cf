-- ===== src/Kern/Chains.antt =====
-- Lists linked by indices: the free lists of env.c and pmap.c.
use sisop_mendez.Base.{All, List, Option, [], none, some, ℕ, ◌∷◌, ◌≡◌, ◌≢◌}

-- The list of indices that `head` and the links give; no index comes twice.
abbrev pub Chain : (ℕ → Option ℕ) → Option ℕ → List ℕ → Type 0
Chain link none [] = Unit
Chain link none (i ∷ l) = ⊥
Chain link (some head) [] = ⊥
Chain link (some head) (i ∷ l) = (head ≡ i) × Chain link (link i) l × All (λ j. j ≢ i) l

pub Chain-cong :
    (link link' : ℕ → Option ℕ) (head : Option ℕ) (l : List ℕ)
    → All (λ i. link' i ≡ link i) l
    → Chain link head l
    → Chain link' head l
Chain-cong link link' none [] same c = tt
Chain-cong link link' none (i ∷ l) same c = c
Chain-cong link link' (some head) [] same c = c
Chain-cong link link' (some head) (i ∷ l) (same, rest) (e, c, new) =
    (e, rw same (Chain-cong link link' (link i) l rest c), new)

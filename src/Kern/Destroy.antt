-- ===== src/Kern/Destroy.antt =====
-- The end of an environment: `env_free` and `env_destroy` of kern/env.c, up to the `sched_yield` at
-- the end. lcr3 is left out.
pub mod Tables
pub mod Frees
pub mod Rounds
pub mod Space
use sisop_mendez.Base.{
  Bool, Option, and_then, false, if◌then◌else◌, leb, none, not, some, suc, true, zero, ℕ, ◌&&◌, ◌*◌,
  ◌+◌, ◌==◌, ◌^◌,
}
use sisop_mendez.Kern.Envs.{env_release}
use sisop_mendez.Kern.Pages.{Pages, page_decref, pdx, pgnum, utop, write_word}
use sisop_mendez.Kern.Paging.{bit, page_remove}
use sisop_mendez.Kern.Types.{Kernel, env_dying, is_running, put_env}

-- The loop over the entries of the table `t`, for the first `n`.
unfoldable pub free_entries : ℕ → Pages → ℕ → ℕ → ℕ → Option Pages
free_entries zero p g i t = some p
free_entries (suc n) p g i t =
    and_then (free_entries n p g i t)
      (λ p'. if bit (p'.frames t n) 1 then page_remove p' g (i * 2 ^ 22 + n * 4096) else some p')

-- The body of the loop over the directory `g`, for its entry `i`.
unfoldable pub free_table : Pages → ℕ → ℕ → Option Pages
free_table p g i =
    let t = pgnum (p.frames g i) in
    if not (bit (p.frames g i) 1)
    then some p
    else if leb p.npages t
    then none
    else and_then (free_entries 1024 p g i t)
        (λ p'. page_decref t (record p' { frames = write_word p'.frames g i 0 }))

unfoldable pub free_tables : ℕ → Pages → ℕ → Option Pages
free_tables zero p g = some p
free_tables (suc n) p g = and_then (free_tables n p g) (λ p'. free_table p' g n)

-- The page tables of `env_free`, which end at UTOP, and the directory.
unfoldable pub free_space : Pages → ℕ → Option Pages
free_space p g = and_then (free_tables (pdx utop) p g) (page_decref g)

unfoldable pub env_free_at : ℕ → Kernel → Pages → Option ℕ → Option (Kernel × Pages)
env_free_at e k p none = none
env_free_at e k p (some g) =
    and_then (free_space p g)
      (λ p'. some (env_release e (put_env k e (record (k.envs e) { env_pgdir = none })), p'))

abbrev pub env_free_all : ℕ → Kernel → Pages → Option (Kernel × Pages)
env_free_all e k p = env_free_at e k p (k.envs e).env_pgdir

-- What `env_destroy` does: it returns, or gives the CPU up.
pub data Destroyed : Type 0 where
  returned : Kernel → Pages → Destroyed
  gives_up : Kernel → Pages → Destroyed
  panics : Destroyed

abbrev pub points_to : Option ℕ → ℕ → Bool
points_to none e = false
points_to (some c) e = c == e

abbrev pub is_curenv : Kernel → ℕ → Bool
is_curenv k e = points_to k.curenv e

unfoldable pub end_destroy : Bool → Option (Kernel × Pages) → Destroyed
end_destroy own none = panics
end_destroy true (some (k, p)) = gives_up (record k { curenv = none }) p
end_destroy false (some (k, p)) = returned k p

unfoldable pub env_destroy : ℕ → Kernel → Pages → Destroyed
env_destroy e k p =
    if is_running (k.envs e).env_status && not (is_curenv k e)
    then returned (put_env k e (record (k.envs e) { env_status = env_dying })) p
    else end_destroy (is_curenv k e) (env_free_all e k p)

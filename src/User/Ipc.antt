-- ===== src/User/Ipc.antt =====
-- lib/ipc.c and lib/pgfault.c. An answer of the kernel is `none` for 0. A pointer to a store is only
-- null or not, and a page a number, 0 for NULL.
use sisop_mendez.Base.{
  All, Bool, List, Option, [], ap, arith, false, if◌then◌else◌, inl, inr, length, none, not, some,
  true, ℕ, ◌++◌, ◌+◌, ◌-◌, ◌==◌, ◌∙◌, ◌∷◌, ◌≡◌, ◌≢◌, ◌⊎◌,
}
use sisop_mendez.Kern.Envs.{Error, e_ipc_not_recv}
use sisop_mendez.Kern.Pages.{pgsize, utop}
use sisop_mendez.Kern.Types.{Env}
use sisop_mendez.User.{Call, alloc_call, upcall_call}

-- What `ipc_recv` stores, and what it returns: an error, or the value.
pub record Received : Type 0 where
  pub from_env : Option ℕ
  pub perm : Option ℕ
  pub result : Error ⊎ ℕ

unfoldable pub store_if : Bool → ℕ → Option ℕ
store_if wanted x = if wanted then some x else none

-- `answer` is that of `sys_ipc_recv(pg)`, and the environment is the caller's behind it.
unfoldable pub ipc_recv : (ℕ → Option Error) → Env → Bool → ℕ → Bool → Received
ipc_recv answer thisenv from_env_store pg perm_store = elim (answer pg) [
  | none ↦ record {
    from_env = store_if from_env_store thisenv.env_ipc_from;
    perm = store_if perm_store thisenv.env_ipc_perm;
    result = inr thisenv.env_ipc_value;
  }
  | some e ↦ record {
    from_env = store_if from_env_store 0;
    perm = store_if perm_store 0;
    result = inl e;
  }
]

-- The end of `ipc_send`, with the number of its calls of `sys_yield`.
pub data Sending : Type 0 where
  sent panics_on : ℕ → Sending
  still_trying : ℕ → Sending

-- One answer of `sys_ipc_try_send` for each call, on the page it gets.
abbrev pub Answers : Type 0
Answers = List (ℕ → Option Error)

unfoldable pub is_not_recv : Error → Bool
is_not_recv e_ipc_not_recv = true
is_not_recv _ = false

unfoldable pub try_sends : ℕ → ℕ → Answers → Sending
try_sends pg n [] = still_trying n
try_sends pg n (answer ∷ later) = elim (answer pg) [
  | none ↦ sent n
  | some e ↦ elim (is_not_recv e) [ true ↦ try_sends pg (n + 1) later | false ↦ panics_on n ]
]

-- The page that `ipc_send` hands to the kernel.
abbrev pub page_to_send : ℕ → ℕ
page_to_send pg = if pg == 0 then utop else pg

abbrev pub ipc_send : ℕ → Answers → Sending
ipc_send pg later = try_sends (page_to_send pg) 0 later

-- The calls of `set_pgfault_handler` and the handler that is then installed, 0 being none.
unfoldable pub set_pgfault_handler : (Call → Bool) → ℕ → ℕ → List Call × ℕ
set_pgfault_handler answers installed handler =
    let alloc = alloc_call 0 (utop - pgsize) 7 in
    if not (installed == 0)
    then ([], handler)
    else if not (answers alloc)
    then (alloc ∷ [], installed)
    else if not (answers (upcall_call 0))
    then (alloc ∷ upcall_call 0 ∷ [], installed)
    else (alloc ∷ upcall_call 0 ∷ [], handler)

-- A receiver that is not ready, for the page.
abbrev pub Refuses : ℕ → (ℕ → Option Error) → Type 0
Refuses pg answer = answer pg ≡ some e_ipc_not_recv

-- While the receiver is not ready, `try_sends` yields once for each refusal and asks again.
try_sends_waits :
    (pg n : ℕ) (refusals later : Answers)
    → All (Refuses pg) refusals
    → try_sends pg n (refusals ++ later) ≡ try_sends pg (n + length refusals) later
unfolding try_sends is_not_recv
try_sends_waits pg n [] later r = ap (λ k. try_sends pg k later) (omega arith)
try_sends_waits pg n (f ∷ fs) later r =
    rw (try_sends, r.0)
      (try_sends_waits pg (n + 1) fs later r.1 ∙ ap (λ k. try_sends pg k later) (omega arith))

-- `ipc_send` calls the kernel until it takes the message, with one `sys_yield` behind each refusal of
-- a receiver that is not ready, and never with the page NULL.
ipc_send-waits :
    (pg : ℕ) (refusals rest : Answers) (last : ℕ → Option Error)
    → All (Refuses (page_to_send pg)) refusals
    → last (page_to_send pg) ≡ none
    → (ipc_send pg (refusals ++ last ∷ rest) ≡ sent (length refusals)) × (page_to_send pg ≢ 0)
unfolding try_sends
ipc_send-waits pg refusals rest last r taken = (
  try_sends_waits (page_to_send pg) 0 refusals (last ∷ rest) r
      ∙ rw (try_sends, taken) (ap sent (omega arith)),
  ground arith,
)

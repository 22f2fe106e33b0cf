-- ===== src/User.antt =====
-- lib/fork.c of the kernel's user library. A function is the list of the system calls that it makes,
-- for entries of the page tables read through `uvpt` and `uvpd`, and it panics at the first that
-- fails. An environment is its id, 0 for the caller.
pub mod Copies
pub mod Forks
pub mod Faults
pub mod Ipc
use Prim.Native.Nat.{bit_and, bit_or}
use sisop_mendez.Base.{
  Bool, List, [], false, if◌then◌else◌, not, suc, true, zero, ℕ, ◌%◌, ◌&&◌, ◌*◌, ◌++◌, ◌-◌, ◌/◌,
  ◌==◌, ◌||◌, ◌∷◌,
}

pub data Call : Type 0 where
  alloc_call : ℕ → ℕ → ℕ → Call
  map_call : ℕ → ℕ → ℕ → ℕ → ℕ → Call
  unmap_call : ℕ → ℕ → Call
  copy_call : ℕ → ℕ → Call
  upcall_call : ℕ → Call
  runnable_call : ℕ → Call

pub record Trace : Type 0 where
  pub calls : List Call
  pub panicked : Bool

abbrev pub finished : Trace
finished = record { calls = []; panicked = false }

abbrev pub panics : Trace
panics = record { calls = []; panicked = true }

-- A call, which succeeds or not, and what follows it.
unfoldable pub make : (Call → Bool) → Call → Trace → Trace
make answers c rest =
    if answers c
    then record { calls = c ∷ rest.calls; panicked = rest.panicked }
    else record { calls = c ∷ []; panicked = true }

-- One part, and the next one if the first did not panic.
unfoldable pub followed_by : Trace → Trace → Trace
followed_by a b =
    if a.panicked then a else record { calls = a.calls ++ b.calls; panicked = b.panicked }

abbrev pub pte_p : ℕ
pte_p = 0x001

abbrev pub pte_w : ℕ
pte_w = 0x002

abbrev pub pte_u : ℕ
pte_u = 0x004

abbrev pub pte_pwt : ℕ
pte_pwt = 0x008

abbrev pub pte_pcd : ℕ
pte_pcd = 0x010

abbrev pub pte_cow : ℕ
pte_cow = 0x800

abbrev pub pte_syscall : ℕ
pte_syscall = 0xE07

-- Whether a bit of a word is set.
abbrev pub has : ℕ → ℕ → Bool
has w b = w / b % 2 == 1

abbrev pub pftemp : ℕ
pftemp = 0x7ff000

abbrev pub utemp : ℕ
utemp = 0x400000

-- `(err & FEC_WR) & !(fault_pte & PTE_COW)`, the condition of the panic.
unfoldable pub panic_test : ℕ → ℕ → ℕ
panic_test err pte = bit_and (if has err 2 then 2 else 0) (if has pte pte_cow then 0 else 1)

-- How the handler ends: by itself, or in a page fault of its own behind some calls.
pub data Handling : Type 0 where
  handled : Trace → Handling
  faults_again : List Call → Handling

-- An entry, of a directory or of a table, through which the user may read.
abbrev pub is_users : ℕ → Bool
is_users entry = has entry pte_p && has entry pte_u

-- `pgfault` behind the test of the entry `pte`; `memmove` reads the page.
unfoldable pub copy_page : (Call → Bool) → ℕ → ℕ → Handling
copy_page answers page pte =
    if not (answers (alloc_call 0 pftemp 7))
    then handled (record { calls = alloc_call 0 pftemp 7 ∷ []; panicked = true })
    else if not (is_users pte) && not (page == pftemp)
    then faults_again (alloc_call 0 pftemp 7 ∷ [])
    else handled (
        make answers (alloc_call 0 pftemp 7) (
          followed_by (record { calls = copy_call pftemp page ∷ []; panicked = false })
            (make answers (map_call 0 pftemp 0 page 7)
              (make answers (unmap_call 0 pftemp) finished))))

-- `pgfault` at the address; the entry of its page is read through the directory's.
unfoldable pub pgfault : (Call → Bool) → (ℕ → ℕ) → (ℕ → ℕ) → ℕ → ℕ → Handling
pgfault answers uvpd uvpt addr err =
    let pn = addr / 4096 in
    if not (is_users (uvpd (pn / 1024)))
    then faults_again []
    else if not (panic_test err (uvpt pn) == 0)
    then handled panics
    else copy_page answers (pn * 4096) (uvpt pn)

-- The permissions of `duppage`, without PTE_COW.
abbrev pub shared_perm : ℕ → ℕ
shared_perm pte = if has pte pte_pcd || has pte pte_pwt then 29 else 5

unfoldable pub duppage : (Call → Bool) → ℕ → ℕ → ℕ → Trace
duppage answers envid pn pte =
    let addr = pn * 4096 in
    let perm = shared_perm pte in
    if not (has pte pte_p) || not (has pte pte_u)
    then panics
    else if has pte pte_w || has pte pte_cow
    then make answers (map_call 0 addr envid addr (bit_or perm pte_cow))
        (make answers (map_call 0 addr 0 addr (bit_or perm pte_cow)) finished)
    else make answers (map_call 0 addr envid addr perm) finished

-- The number of the page of the exception stack, and of the pages below UTOP.
abbrev pub exception_page : ℕ
exception_page = 0xeec00000 / 4096 - 1

abbrev pub user_pages : ℕ
user_pages = 0xeec00000 / 4096

-- The body of the loop of `fork`.
unfoldable pub copy_page_of : (Call → Bool) → (ℕ → ℕ) → (ℕ → ℕ) → ℕ → ℕ → Trace
copy_page_of answers uvpd uvpt envid pn =
    if pn == exception_page
    then finished
    else if not (has (uvpd (pn / 1024)) pte_p) || not (has (uvpd (pn / 1024)) pte_u)
    then finished
    else if not (has (uvpt pn) pte_p) || not (has (uvpt pn) pte_u)
    then finished
    else duppage answers envid pn (uvpt pn)

-- The loop, over the first `n` pages.
unfoldable pub copy_pages : (Call → Bool) → (ℕ → ℕ) → (ℕ → ℕ) → ℕ → ℕ → Trace
copy_pages answers uvpd uvpt envid zero = finished
copy_pages answers uvpd uvpt envid (suc n) =
    followed_by (copy_pages answers uvpd uvpt envid n) (copy_page_of answers uvpd uvpt envid n)

-- `fork` in the parent, behind `sys_exofork`, which gave the id of the child.
unfoldable pub fork : (Call → Bool) → (ℕ → ℕ) → (ℕ → ℕ) → ℕ → Trace
fork answers uvpd uvpt envid = followed_by (copy_pages answers uvpd uvpt envid user_pages) (
    make answers (alloc_call envid (0xeec00000 - 4096) 7)
      (make answers (upcall_call envid) (make answers (runnable_call envid) finished)))

-- The permissions of `dup_or_share`.
abbrev pub filtered_perm : ℕ → ℕ → ℕ
filtered_perm perm pte =
    let kept = bit_and (bit_and perm (if has pte pte_w then pte_w else 0)) pte_syscall in
    if has pte pte_pcd || has pte pte_pwt then bit_or kept 24 else kept

unfoldable pub dup_or_share : (Call → Bool) → ℕ → ℕ → ℕ → ℕ → Trace
dup_or_share answers envid pn perm pte =
    let addr = pn * 4096 in
    let perm' = filtered_perm perm pte in
    if not (has pte pte_p)
    then finished
    else if not (has pte pte_w) || (has pte pte_pcd || has pte pte_pwt)
    then make answers (map_call 0 addr envid addr perm') finished
    else make answers (alloc_call envid addr perm') (
        make answers (map_call envid addr 0 utemp perm') (
          followed_by (record { calls = copy_call utemp addr ∷ []; panicked = false })
            (make answers (unmap_call 0 utemp) finished)))

unfoldable pub share_pages : (Call → Bool) → (ℕ → ℕ) → (ℕ → ℕ) → ℕ → ℕ → Trace
share_pages answers uvpd uvpt envid zero = finished
share_pages answers uvpd uvpt envid (suc n) = followed_by (share_pages answers uvpd uvpt envid n) (
    if not (has (uvpd (n / 1024)) pte_p) || not (has (uvpd (n / 1024)) pte_u)
    then finished
    else dup_or_share answers envid n 7 (uvpt n))

-- `fork_v0` in the parent, behind `sys_exofork`.
unfoldable pub fork_v0 : (Call → Bool) → (ℕ → ℕ) → (ℕ → ℕ) → ℕ → Trace
fork_v0 answers uvpd uvpt envid =
    followed_by (share_pages answers uvpd uvpt envid user_pages)
      (make answers (runnable_call envid) finished)

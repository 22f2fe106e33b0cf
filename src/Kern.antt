-- ===== src/Kern.antt =====
-- The kernel of TPs/Sched: environments (`Types`, `Envs`, `Destroy`), the scheduler (`Sched`), memory
-- (`Pages`, `Paging`, `Boot`), system calls (`Calls`, `PageCalls`), and its library (`Memory`,
-- `Strings`, `Printing`). `Chains` is about the free lists of pages and environments.
pub mod Types
pub mod Chains
pub mod Pages
pub mod Paging
pub mod Boot
pub mod Envs
pub mod Sched
pub mod Cpus
pub mod Destroy
pub mod Calls
pub mod PageCalls
pub mod Memory
pub mod Strings
pub mod Printing
pub mod Console
pub mod Debug
pub mod Traps
pub mod Locks
pub mod Monitor

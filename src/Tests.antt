-- ===== src/Tests.antt =====
-- Runs of the models on concrete inputs, and the theorems at inputs that meet their hypotheses.
mod Fisopfs
mod Kern
mod Paging
mod Calls
mod Strings
mod Cpus
mod Devices
mod Exec
mod Fork
mod Traps
mod User
mod Locks
mod Shell

-- ===== src/Fork.antt =====
-- The exercises of TPs/Fork: primes.c and xargs.c.
pub mod Primes
pub mod Xargs

-- ===== src/Shell.antt =====
-- The parser of the shell TPs/Shell: parsing.c, createcmd.c, types.h and utils.c.
pub mod Types
pub mod Parsing
pub mod Exec
pub mod Run

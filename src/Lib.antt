-- ===== src/Lib.antt =====
-- A model of the programs of this repository, and the theorems that make them correct. The four
-- programs under TPs/ are independent of each other: a FUSE file system, the scheduler and the
-- environments of a teaching kernel, a shell, and two exercises with fork.
--
-- Fs: the file system TPs/FileSystem/fisopfs. The superblock is one table of 1024 slots; the FUSE
--   handlers look a path up in it, change a slot, and answer with a value or an error.
--   Types: inode.h and superblock.h. The two arrays `inodes` and `states` are one list of slots.
--   Paths: get_filename_from_path, get_parent_path_from_path and the library's string functions
--     on strings, which are the lists of the bytes before the NUL. `content` is a whole buffer.
--   Table: new_inode, get_inode_index, is_child_inode, get_files_in_directory, build_superblock
--     and the helpers of fisopfs/utils.c.
--   Handlers, Files: the handlers of fisopfs/fisopfs.c, those that read and write content in
--     Files. Disk: fisopfs_init, fisopfs_flush and fisopfs_destroy. Requests: the `operations`
--     table, a run of requests, and one with the image that its flushes write.
--   Valid, Names, Contents, Behaviour and the children of Requests hold the proofs: the shape of
--     the table, lookups, what a write leaves to be read, single handlers, and whole runs.
--
-- Kern: the kernel of TPs/Sched. Types: inc/env.h, kern/sched_stats.h. Envs: envid2env, env_init,
--   env_alloc and env_setup_vm (kern/env.c). Sched: sched_yield with both
--   policies, sched_halt (kern/sched.c) and env_run (kern/env.c).
--   Pages: boot_alloc, page_init, page_alloc, page_free and page_decref (kern/pmap.c). Paging: the
--   page tables, from pgdir_walk to page_remove, with user_mem_check and region_alloc (kern/env.c).
--   Boot: boot_map_region, mmio_map_region and mem_init. A `struct PageInfo *` is the number of its
--   page; memory is 1024 words for each page. A page table is such a page: its words are read
--   and written by the same function that gives the contents of all others.
--   The children of Paging hold the abstract view, one entry for each page below UTOP, in Space;
--   the shape of tables in order in Steps; and what each step does to it.
--   Destroy: env_free and env_destroy (kern/env.c), on the environments and the page tables.
--   PageCalls: check_perm, env_page_alloc, env_page_map, the calls on pages, and IPC
--   (kern/syscall.c), over the page tables and the environments.
--   `envs` is a function on indices, so that a read past the array has a value, that of the memory
--   behind it. A pointer is an index, 32-bit fields are bit patterns.
--   Calls: sys_getenvid, sys_exofork, sys_env_set_status and the calls on priorities
--   (kern/syscall.c). They, `env_alloc` and `sched_yield` share the table of environments.
--   Strings: lib/string.c; a pointer is the list of the bytes from there to the end of its buffer.
--   Memory: its memset, memmove and memcpy, on a memory that is a function on addresses, which they
--   store to by bytes or by words.
--   Printing: printnum and vsnprintf (lib/printfmt.c), on the list of the characters put.
--   Console: the input ring, the keyboard and the screen of kern/console.c; a device is the list of
--   what it gives. Debug: stab_binsearch (kern/kdebug.c). Traps: page_fault_handler (kern/trap.c),
--   over user_mem_check and env_destroy. Locks: kern/spinlock.c, on CPUs whose accesses interleave.
--   Cpus: kern/mpconfig.c, the tables of the BIOS that mp_init reads.
--   Monitor: lib/readline.c and the arguments that runcmd (kern/monitor.c) takes from a line.
--   Chains: lists linked by indices, the free lists of env.c and pmap.c.
--
-- User: lib/fork.c of the kernel's user library, as the lists of the system calls that it makes;
--   Faults says what those of `pgfault` leave of an address space.
--   Ipc: lib/ipc.c and lib/pgfault.c, on the answers of the kernel.
--
-- Shell: TPs/Shell. Parsing: parsing.c, createcmd.c and the string helpers of utils.c. Exec: exec.c,
--   on descriptor tables; Exec.Wiring says which file each standard descriptor of a program is. Run:
--   runcmd.c, builtin.c, printstatus.c and readline.c, over the parser and exec_cmd.
--
-- Fork: primes.c and xargs.c of TPs/Fork. A process is a function of what it reads from its pipe.
--
-- Base holds the lists, the Boolean tests and the case lemmas that all parts share; Tests holds
-- runs on concrete inputs.
--
-- Errors are values: a handler answers `throw`, and `fault`, `overflow` or `none` stand for a read
-- or a write outside of a buffer. Loops recurse on the list they walk, or on fuel: `search` of the
-- scheduler, for which 1024 rounds are enough from an index inside the array; `parse_tokens`,
-- which gets the length of the string; `parse_line`, which needs one call for each segment;
-- `bisect` of stab_binsearch, which gets two rounds for each stab; `send_numbers`, which gets one
-- round more than its last number; `receive_numbers`, which needs one call for each number; and
-- `print_digits`, for which 64 rounds print any number of 64 bits. Loops over a range of pages
-- recurse on the number of its pages.
--
-- What the code calls and the repository does not hold is a parameter: the user, the group and the
-- clock (`Context`), the outcome of opening and writing the image of the file system (`Disk`),
-- getenv, sprintf and realloc (`Environment`), what the calls of the system answer to the shell, to
-- primes.c and xargs.c and to fork.c. malloc and calloc are taken to succeed. `off_t` and
-- `size_t` of the file system are natural numbers, with the sums of `size_t` taken modulo 2 ^ 64.
--
-- Not modelled: the contents of a program that load_icode loads, several address spaces at once in
-- the theorems, the translation caches, the dispatch of traps and system calls, the start of the
-- other CPUs, timers and the set-up of devices, vprintfmt, the kernel's user programs and the rest
-- of its user library; process groups and signals of the shell; the messages that the programs
-- print.
pub mod Base
pub mod Fork
pub mod Fs
pub mod Kern
pub mod Shell
pub mod Tests
pub mod User

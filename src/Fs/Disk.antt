-- ===== src/Fs/Disk.antt =====
-- fisopfs.c: the superblock's image in the file `filedisk`, and the option that names that file.
-- `DiskFile` is what the C library finds under the name.
use sisop_mendez.Fs.Table.{build_superblock}
use sisop_mendez.Fs.Types.{Context, Superblock}

-- `short sb`: a file that is too short, which leaves `sb` in memory when it is read.
pub data DiskFile : Type 0 where
  absent : DiskFile
  image : Superblock → DiskFile
  short : Superblock → DiskFile

-- The superblock that `fisopfs_init` leaves.
unfoldable pub init : Context → DiskFile → Superblock
init c absent = build_superblock c
init c (image sb) = sb
init c (short sb) = sb

-- How the C library answers a `fisopfs_destroy`: `fopen` fails, `fwrite` fails behind a file that
-- `fopen` has cut to nothing (what a later read finds there is the argument), or all is written.
pub data Outcome : Type 0 where
  no_file : Outcome
  no_write : Superblock → Outcome
  written : Outcome

-- The file that `fisopfs_destroy` leaves.
unfoldable pub destroy : Outcome → Superblock → DiskFile → DiskFile
destroy no_file sb file = file
destroy (no_write left) sb file = short left
destroy written sb file = image sb

-- `fisopfs_flush` is a `fisopfs_destroy`.
unfoldable pub flush : Outcome → Superblock → DiskFile → DiskFile
flush o sb file = destroy o sb file

-- ===== src/Fs/Handlers.antt =====
-- fisopfs.c: the handlers that look at or change the table. `printf` of a debug line is left out.
use Prim.Native.Nat.{bit_or}
use sisop_mendez.Base.{
  List, Option, [], drop, get_or, if◌then◌else◌, length, ltb, none, not, set, some, ℕ, ◌&&◌, ◌∷◌,
}
use sisop_mendez.Fs.Table.{
  directory_mode, get_files_in_directory, get_inode_index, is_child_inode, new_inode,
}
use sisop_mendez.Fs.Types.{
  Context, Inode, Reply, Slot, Str, Superblock, directory, done, eisdir, enoent, enotdir, enotempty,
  fault, free_slot, is_directory, is_occupied, is_regular, regular, throw,
}

-- `superblock.inodes[i]` with its state; the table holds every index that a lookup returns.
abbrev pub slot_at : Superblock → ℕ → Slot
slot_at sb i = get_or sb i free_slot

abbrev pub inode_at : Superblock → ℕ → Inode
inode_at sb i = (slot_at sb i).inode

-- A write through `Inode *inode = superblock.inodes + i`.
abbrev pub put_inode : Superblock → ℕ → Inode → Superblock
put_inode sb i n = set sb i (record { inode = n; state = (slot_at sb i).state })

-- `int inode_index = get_inode_index(path); if (inode_index < 0) THROW(ENOENT)`, and what follows.
abbrev pub at_index : {A : Type 0} → Option ℕ → Superblock → (ℕ → Reply A) → Reply A
at_index none sb rest = throw enoent sb
at_index (some i) sb rest = rest i

-- The fields of `struct stat` that are set.
pub record Stat : Type 0 where
  pub st_dev : ℕ
  pub st_ino : ℕ
  pub st_uid : ℕ
  pub st_gid : ℕ
  pub st_atime : ℕ
  pub st_mtime : ℕ
  pub st_ctime : ℕ
  pub st_size : ℕ
  pub st_nlink : ℕ
  pub st_mode : ℕ

-- `__S_IFREG | 0644`
abbrev pub regular_mode : ℕ
regular_mode = bit_or 0o100000 0o644

unfoldable pub stat_of : ℕ → Inode → Stat
stat_of i n = record {
  st_dev = 0;
  st_ino = i;
  st_uid = n.uid;
  st_gid = n.gid;
  st_atime = n.last_access;
  st_mtime = n.last_modification;
  st_ctime = n.creation_time;
  st_size = n.size;
  st_nlink = if is_regular n.type then 1 else 2;
  st_mode = if is_regular n.type then regular_mode else directory_mode;
}

unfoldable pub getattr : Str → Superblock → Reply Stat
getattr path sb = at_index (get_inode_index path sb) sb λ i. done (stat_of i (inode_at sb i)) sb

-- The names that the loop of `fisopfs_readdir` hands to `filler`.
unfoldable pub child_names : Inode → Superblock → List Str
child_names dir [] = []
child_names dir (s ∷ sb) =
    let rest = child_names dir sb in
    if is_occupied s.state && is_child_inode dir s.inode then s.inode.path ∷ rest else rest

abbrev pub dot : Str
dot = b'.' ∷ []

abbrev pub dot_dot : Str
dot_dot = b'.' ∷ b'.' ∷ []

-- `fisopfs_readdir` behind its lookup: the names given to `filler`, errors included, and the reply.
-- The access time is set in a copy of the inode, so the superblock stays as it is.
unfoldable pub readdir_at : Option ℕ → Superblock → List Str × Reply Unit
readdir_at none sb = (dot ∷ dot_dot ∷ [], throw enoent sb)
readdir_at (some i) sb =
    if not (is_directory (inode_at sb i).type)
    then (dot ∷ dot_dot ∷ [], throw enotdir sb)
    else (dot ∷ dot_dot ∷ child_names (inode_at sb i) (drop 1 sb), done tt sb)

unfoldable pub readdir : Str → Superblock → List Str × Reply Unit
readdir path sb = readdir_at (get_inode_index path sb) sb

unfoldable pub create : Context → Str → ℕ → Superblock → Reply Unit
create c path mode sb = new_inode c path mode regular sb

unfoldable pub mkdir : Context → Str → ℕ → Superblock → Reply Unit
mkdir c path mode sb = new_inode c path mode directory sb

-- `fisopfs_rmdir` once it has the files whose directory has that name.
unfoldable pub rmdir_at : ℕ → Option (List ℕ) → Superblock → Reply Unit
rmdir_at i none sb = fault
rmdir_at i (some files) sb =
    if ltb 0 (length files) then throw enotempty sb else done tt (set sb i free_slot)

unfoldable pub rmdir : Str → Superblock → Reply Unit
rmdir path sb = at_index (get_inode_index path sb) sb λ i.
    if not (is_directory (inode_at sb i).type)
    then throw enotdir sb
    else rmdir_at i (get_files_in_directory path sb) sb

unfoldable pub unlink : Str → Superblock → Reply Unit
unlink path sb = at_index (get_inode_index path sb) sb λ i.
    if not (is_regular (inode_at sb i).type) then throw eisdir sb else done tt (set sb i free_slot)

-- The two times are `tv[0].tv_sec` and `tv[1].tv_sec`.
unfoldable pub utimens : Str → ℕ → ℕ → Superblock → Reply Unit
utimens path access modification sb = at_index (get_inode_index path sb) sb λ i.
    let n = inode_at sb i in
    done tt (put_inode sb i (record n { last_access = access; last_modification = modification }))

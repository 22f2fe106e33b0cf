-- ===== src/Fs/Table.antt =====
-- utils.c: the table of inodes. A loop over the table is a recursion on the list of slots; the
-- index that it returns counts from the slot where it starts.
use mathlib.Core.Option
use Prim.Native.Nat.{bit_or}
use sisop_mendez.Base.{
  Bool, List, Option, [], drop, if◌then◌else◌, inl, inr, leb, length, ltb, none, replicate, set,
  some, suc, true, ℕ, ◌%◌, ◌&&◌, ◌+◌, ◌-◌, ◌==◌, ◌∷◌, ◌⊎◌,
}
use sisop_mendez.Fs.Paths.{get_filename_from_path, get_parent_path_from_path, root_path, str_eq}
use sisop_mendez.Fs.Types.{
  Context, Errno, Inode, InodeType, Reply, Str, Superblock, directory, done, eexist, enametoolong,
  enospc, eperm, fault, free_slot, is_free, is_occupied, max_data_size, max_directory_size,
  max_inodes, max_path_length, occupied, regular, size_mod, throw, zero_content,
}

abbrev pub next : Errno ⊎ ℕ → Errno ⊎ ℕ
next (inl e) = inl e
next (inr i) = inr (suc i)

unfoldable pub next_free_inode_index : Str → Superblock → Errno ⊎ ℕ
next_free_inode_index name [] = inl enospc
next_free_inode_index name (s ∷ sb) =
    if str_eq s.inode.path name
    then inl eexist
    else if is_free s.state
    then inr 0
    else next (next_free_inode_index name sb)

-- `strlen(path) - 1` in `size_t`
abbrev pub path_room : Str → ℕ
path_room path = (length path + size_mod - 1) % size_mod

-- The directory that a new inode is put in: of a file, what stands between the first byte of its
-- path and the last slash, or the root; of a directory, always the root.
unfoldable pub directory_of : InodeType → Str → Str
directory_of directory path = root_path
directory_of regular path =
    let parent = get_parent_path_from_path (drop 1 path) in
    if length parent == 0 then root_path else parent

-- Whether `new_inode` writes past `new_inode.path` or `parent_path`.
unfoldable pub overflows : InodeType → Str → Str → Bool
overflows directory path name = leb max_path_length (length name)
overflows regular path name =
    if leb max_path_length (length name) then true else leb max_path_length (path_room path)

unfoldable pub fresh_inode : Context → Str → ℕ → InodeType → Str → Inode
fresh_inode c path mode type name = record {
  type = type;
  mode = mode;
  size = 0;
  uid = c.uid;
  gid = c.gid;
  last_access = c.time 0;
  last_modification = c.time 1;
  creation_time = c.time 2;
  path = name;
  content = zero_content;
  directory_path = directory_of type path;
}

-- The part of `new_inode` behind the search for a free slot.
unfoldable pub place_inode :
    Context → Str → ℕ → InodeType → Str → Errno ⊎ ℕ → Superblock → Reply Unit
place_inode c path mode type name (inl e) sb = throw e sb
place_inode c path mode type name (inr i) sb =
    if overflows type path name
    then fault
    else done tt (set sb i (record { inode = fresh_inode c path mode type name; state = occupied }))

-- `filename` is NULL for the empty path.
unfoldable pub new_named : Context → Str → ℕ → InodeType → Option Str → Superblock → Reply Unit
new_named c path mode type none sb = throw eperm sb
new_named c path mode type (some name) sb =
    place_inode c path mode type name (next_free_inode_index name sb) sb

unfoldable pub new_inode : Context → Str → ℕ → InodeType → Superblock → Reply Unit
new_inode c path mode type sb =
    if ltb max_data_size (path_room path)
    then throw enametoolong sb
    else new_named c path mode type (get_filename_from_path path) sb

-- `__S_IFDIR | 0755`
abbrev pub directory_mode : ℕ
directory_mode = bit_or 0o40000 0o755

unfoldable pub root_inode : Context → Inode
root_inode c = record {
  type = directory;
  mode = directory_mode;
  size = max_directory_size;
  uid = 1717;
  gid = c.gid;
  last_access = c.time 0;
  last_modification = c.time 1;
  creation_time = c.time 2;
  path = root_path;
  content = zero_content;
  directory_path = [];
}

unfoldable pub build_root_directory : Context → Superblock → Superblock
build_root_directory c sb = set sb 0 (record { inode = root_inode c; state = occupied })

unfoldable pub build_superblock : Context → Superblock
build_superblock c = build_root_directory c (replicate max_inodes free_slot)

-- The loop of `get_inode_index`.
unfoldable pub find_inode : Str → Superblock → Option ℕ
find_inode name [] = none
find_inode name (s ∷ sb) =
    if is_occupied s.state && str_eq name s.inode.path
    then some 0
    else Option.map suc (find_inode name sb)

unfoldable pub get_inode_index : Str → Superblock → Option ℕ
get_inode_index [] sb = none
get_inode_index (a ∷ s) sb =
    if str_eq (a ∷ s) root_path
    then some 0
    else elim (get_filename_from_path (a ∷ s)) [ none ↦ none | some name ↦ find_inode name sb ]

unfoldable pub is_child_inode : Inode → Inode → Bool
is_child_inode dir child = str_eq child.directory_path dir.path

-- The slots, by index from `i`, that the loop of `get_files_in_directory` stores.
unfoldable pub get_files_from : Str → ℕ → Superblock → List ℕ
get_files_from name i [] = []
get_files_from name i (s ∷ sb) =
    let rest = get_files_from name (suc i) sb in
    if str_eq s.inode.directory_path name then i ∷ rest else rest

-- `none` where the file name is NULL, which `strcmp` would read.
unfoldable pub get_files_in_directory : Str → Superblock → Option (List ℕ)
get_files_in_directory path sb = elim (get_filename_from_path path) [
  | none ↦ none
  | some name ↦ some (get_files_from name 0 sb)
]

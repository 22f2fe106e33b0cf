-- ===== src/Fs/Types.antt =====
-- inode.h and superblock.h, and what a handler returns. The two arrays of `Superblock` run in
-- step, so they are one list of slots, each an inode with its state. A `path` is the string that
-- its buffer holds, the bytes before the NUL; `content` is the whole buffer.
use sisop_mendez.Base.{Bool, List, [], false, replicate, true, ℕ, ◌^◌}

abbrev pub Str : Type 0
Str = List ℕ

abbrev pub max_data_size : ℕ
max_data_size = 1024

abbrev pub max_path_length : ℕ
max_path_length = 256

abbrev pub max_inodes : ℕ
max_inodes = 1024

abbrev pub max_directory_size : ℕ
max_directory_size = 1024

-- What `size_t` wraps at.
abbrev pub size_mod : ℕ
size_mod = 2 ^ 64

pub data InodeType : Type 0 where
  regular directory : InodeType

pub data InodeState : Type 0 where
  free occupied : InodeState

pub record Inode : Type 0 where
  pub type : InodeType
  pub mode : ℕ
  pub size : ℕ
  pub uid : ℕ
  pub gid : ℕ
  pub last_access : ℕ
  pub last_modification : ℕ
  pub creation_time : ℕ
  pub path : Str
  pub content : List ℕ
  pub directory_path : Str

pub record Slot : Type 0 where
  pub inode : Inode
  pub state : InodeState

abbrev pub Superblock : Type 0
Superblock = List Slot

abbrev pub is_free : InodeState → Bool
is_free free = true
is_free occupied = false

abbrev pub is_occupied : InodeState → Bool
is_occupied free = false
is_occupied occupied = true

abbrev pub is_regular : InodeType → Bool
is_regular regular = true
is_regular directory = false

abbrev pub is_directory : InodeType → Bool
is_directory regular = false
is_directory directory = true

unfoldable pub zero_content : List ℕ
zero_content = replicate max_data_size 0

-- An inode after `memset(inode, 0, sizeof(Inode))`: REGULAR is 0.
abbrev pub zero_inode : Inode
zero_inode = record {
  type = regular;
  mode = 0;
  size = 0;
  uid = 0;
  gid = 0;
  last_access = 0;
  last_modification = 0;
  creation_time = 0;
  path = [];
  content = zero_content;
  directory_path = [];
}

-- FREE is 0.
abbrev pub free_slot : Slot
free_slot = record { inode = zero_inode; state = free }

-- `eperm` is the plain -1 that `new_inode` returns.
pub data Errno : Type 0 where
  eperm enoent eexist enospc enametoolong enotdir eisdir enotempty efbig einval eacces : Errno

-- What a call does to the superblock `sb`: `done` with its result, `throw` for a negative return,
-- `fault` where the C code reads or writes past a buffer.
pub data Reply (A : Type 0) : Type 0 where
  done : A → Superblock → Reply A
  throw : Errno → Superblock → Reply A
  fault : Reply A

-- What the process reads from the system during one call: `getuid()`, `getgid()`, and the value
-- of its k-th call of `time(NULL)`.
pub record Context : Type 0 where
  pub uid : ℕ
  pub gid : ℕ
  pub time : ℕ → ℕ

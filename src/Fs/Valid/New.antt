-- ===== src/Fs/Valid/New.antt =====
-- The superblock that `build_superblock` makes, and those that `new_inode` leaves.
use sisop_mendez.Base.{
  All-replicate, All-set, Bool-cases, Option, [], arith, inl, inr, length, length-replicate,
  length-set, ltb, none, refl, replicate, some, ℕ, ◌∙◌, ◌≡◌, ◌≢◌, ◌⊎◌,
}
use sisop_mendez.Fs.Paths.{get_filename_from_path, strlen}
use sisop_mendez.Fs.Table.{
  build_root_directory, build_superblock, fresh_inode, new_inode, new_named, next_free_inode_index,
  overflows, path_room, place_inode, root_inode,
}
use sisop_mendez.Fs.Types.{
  Context, Errno, InodeType, Slot, Str, Superblock, free_slot, max_data_size, max_inodes, occupied,
  zero_content,
}
use sisop_mendez.Fs.Valid.{IsInode, IsSlot, IsValid, Leaves, set-IsValid}
use sisop_mendez.Fs.Valid.Lookup.{Vacant, Vacant-ne_nil, next_free-Vacant}

pub length-zero_content : length zero_content ≡ max_data_size
unfolding zero_content
length-zero_content = length-replicate {A = ℕ} max_data_size 0

pub strlen-zero_content : strlen zero_content ≡ some 0
unfolding zero_content strlen
strlen-zero_content = refl

pub fresh-IsInode :
    (c : Context) (path : Str) (mode : ℕ) (type : InodeType) (name : Str)
    → name ≢ []
    → IsInode (fresh_inode c path mode type name)
unfolding fresh_inode
fresh-IsInode c path mode type name h = record {
  named = h;
  sized = length-zero_content;
  ends = λ e. cc strlen-zero_content;
  fits = omega arith;
}

root-IsInode : (c : Context) → IsInode (root_inode c)
unfolding root_inode
root-IsInode c = record {
  named = λ e. cc e;
  sized = length-zero_content;
  ends = λ e. cc strlen-zero_content;
  fits = omega arith;
}

-- `build_superblock` makes a well-formed superblock, whatever the clock and the user are.
pub build_superblock-IsValid : (c : Context) → IsValid (build_superblock c)
unfolding build_superblock build_root_directory root_inode
build_superblock-IsValid c = record {
  sized =
      length-set (replicate max_inodes free_slot) 0 root ∙ length-replicate max_inodes free_slot;
  slots =
      All-set IsSlot (replicate max_inodes free_slot) 0 root
        (All-replicate IsSlot max_inodes free_slot refl) (root-IsInode c);
  root = record { used = refl; type = refl; path = refl; outside = refl };
}
  where
    root : Slot
    root = record { inode = root_inode c; state = occupied }

place-IsValid :
    (c : Context) (path : Str) (mode : ℕ) (type : InodeType) (name : Str) (r : Errno ⊎ ℕ)
    (sb : Superblock)
    → IsValid sb
    → next_free_inode_index name sb ≡ r
    → Leaves IsValid (place_inode c path mode type name r sb)
unfolding place_inode
place-IsValid c path mode type name (inl e) sb v h = v
place-IsValid c path mode type name (inr i) sb v h = elim (Bool-cases (overflows type path name)) [
  | inl bad ↦ rw bad tt
  | inr good ↦ rw good (
      set-IsValid sb i _ v (fresh-IsInode c path mode type name (Vacant-ne_nil v found).0)
        (λ e. absurd ((Vacant-ne_nil v found).1 e)))
]
  where
    found : Vacant name sb i
    found = next_free-Vacant name sb i h

named-IsValid :
    (c : Context) (path : Str) (mode : ℕ) (type : InodeType) (o : Option Str) (sb : Superblock)
    → IsValid sb
    → Leaves IsValid (new_named c path mode type o sb)
unfolding new_named
named-IsValid c path mode type none sb v = v
named-IsValid c path mode type (some name) sb v =
    place-IsValid c path mode type name (next_free_inode_index name sb) sb v refl

-- Whatever `new_inode` answers, it leaves a well-formed superblock well-formed.
pub new_inode-IsValid :
    (c : Context) (path : Str) (mode : ℕ) (type : InodeType) (sb : Superblock)
    → IsValid sb
    → Leaves IsValid (new_inode c path mode type sb)
unfolding new_inode
new_inode-IsValid c path mode type sb v = elim (Bool-cases (ltb max_data_size (path_room path))) [
  | inl long ↦ rw long v
  | inr fits ↦ rw fits (named-IsValid c path mode type (get_filename_from_path path) sb v)
]

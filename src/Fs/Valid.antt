-- ===== src/Fs/Valid.antt =====
-- The well-formedness of a superblock: the length of the table, what a slot holds in each state,
-- and the root directory in slot 0.
pub mod Lookup
pub mod New
pub mod Change
pub mod Slash
pub mod Content
pub mod Files
use sisop_mendez.Base.{
  All, All-set, [], arith, length, length-set, none, set, suc, zero, ℕ, ◌∷◌, ◌≡◌, ◌≢◌, ◌≤◌,
}
use sisop_mendez.Fs.Paths.{root_path, strlen}
use sisop_mendez.Fs.Types.{
  Inode, InodeState, Reply, Slot, Superblock, directory, done, fault, free, max_data_size,
  max_inodes, occupied, throw, zero_inode,
}

-- An inode in use has a name, a content that ends inside its buffer and a size that fits it.
pub record IsInode (n : Inode) : Type 0 where
  pub named : n.path ≢ []
  pub sized : length n.content ≡ max_data_size
  pub ends : strlen n.content ≢ none
  pub fits : n.size ≤ max_data_size

abbrev pub Holds : InodeState → Inode → Type 0
Holds free n = n ≡ zero_inode
Holds occupied n = IsInode n

abbrev pub IsSlot : Slot → Type 0
IsSlot s = Holds s.state s.inode

pub record IsRoot (s : Slot) : Type 0 where
  pub used : s.state ≡ occupied
  pub type : s.inode.type ≡ directory
  pub path : s.inode.path ≡ root_path
  pub outside : s.inode.directory_path ≡ []

abbrev pub HasRoot : Superblock → Type 0
HasRoot [] = ⊥
HasRoot (s ∷ sb) = IsRoot s

pub record IsValid (sb : Superblock) : Type 0 where
  pub sized : length sb ≡ max_inodes
  pub slots : All IsSlot sb
  pub root : HasRoot sb

-- The superblock that a call leaves, if it has one.
abbrev pub Leaves : (Superblock → Type 0) → {A : Type 0} → Reply A → Type 0
Leaves P (done a sb) = P sb
Leaves P (throw e sb) = P sb
Leaves P fault = Unit

HasRoot-set :
    (sb : Superblock) (i : ℕ) (s : Slot) → HasRoot sb → (i ≡ 0 → IsRoot s) → HasRoot (set sb i s)
HasRoot-set [] i s h r = h
HasRoot-set (x ∷ sb) zero s h r = r (omega arith)
HasRoot-set (x ∷ sb) (suc i) s h r = h

-- A slot may be replaced by a good one, slot 0 only by a root.
pub set-IsValid :
    (sb : Superblock) (i : ℕ) (s : Slot)
    → IsValid sb
    → IsSlot s
    → (i ≡ 0 → IsRoot s)
    → IsValid (set sb i s)
set-IsValid sb i s v h r = record {
  sized = omega (arith, length-set sb i s, v.sized);
  slots = All-set IsSlot sb i s v.slots h;
  root = HasRoot-set sb i s v.root r;
}

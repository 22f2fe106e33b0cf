-- ===== src/Fs/Valid/Lookup.antt =====
-- What the searches of the table find.
use sisop_mendez.Base.{
  All-get_or, Bool-cases, Option, [], ap, arith, false, inl, inr, length, none, refl, some, suc,
  true, zero, ℕ, ◌&&◌, ◌<◌, ◌↔◌, ◌∷◌, ◌≡◌, ◌≢◌, ◌⊎◌,
}
use sisop_mendez.Fs.Handlers.{inode_at, slot_at}
use sisop_mendez.Fs.Paths.{get_filename_from_path, root_path, str_eq}
use sisop_mendez.Fs.Table.{find_inode, get_inode_index, next_free_inode_index}
use sisop_mendez.Fs.Types.{
  Inode, InodeState, Str, Superblock, free, free_slot, is_occupied, occupied, zero_inode,
}
use sisop_mendez.Fs.Valid.{HasRoot, Holds, IsInode, IsRoot, IsSlot, IsValid}

pub str_eq_refl : (s : Str) → str_eq s s ≡ true
unfolding str_eq
str_eq_refl [] = refl
str_eq_refl (a ∷ s) = ground (arith, str_eq_refl s)

pub eq_of_str_eq : (s t : Str) → str_eq s t ≡ true → s ≡ t
unfolding str_eq
eq_of_str_eq [] [] h = refl
eq_of_str_eq [] (b ∷ t) h = cc
eq_of_str_eq (a ∷ s) [] h = cc
eq_of_str_eq (a ∷ s) (b ∷ t) h = ground (arith, eq_of_str_eq s t)

pub str_eq_iff : (s t : Str) → (str_eq s t ≡ true) ↔ (s ≡ t)
str_eq_iff s t = (eq_of_str_eq s t, λ e. rw e (str_eq_refl t))

-- The name differs from that of every slot before the `i`-th that is in use.
abbrev pub Unused : Str → Superblock → ℕ → Type 0
Unused name sb zero = Unit
Unused name [] (suc i) = Unit
Unused name (s ∷ sb) (suc i) =
    ((is_occupied s.state && str_eq name s.inode.path) ≡ false) × Unused name sb i

-- The slot found is the first one in use with that name.
pub record Found (name : Str) (sb : Superblock) (i : ℕ) : Type 0 where
  pub inside : i < length sb
  pub used : (slot_at sb i).state ≡ occupied
  pub path : (inode_at sb i).path ≡ name
  pub first : Unused name sb i

pub find_inode-Found :
    (name : Str) (sb : Superblock) (i : ℕ) → find_inode name sb ≡ some i → Found name sb i
unfolding find_inode
find_inode-Found name [] i h = cc
find_inode-Found name (s ∷ sb) zero h = ground (arith, eq_of_str_eq name s.inode.path)
find_inode-Found name (s ∷ sb) (suc i) h = ground (arith, find_inode-Found name sb i)

-- The slot found is free, and no slot up to it has the name.
abbrev pub NotNamed : Str → Superblock → ℕ → Type 0
NotNamed name [] i = Unit
NotNamed name (s ∷ sb) zero = str_eq s.inode.path name ≡ false
NotNamed name (s ∷ sb) (suc i) = (str_eq s.inode.path name ≡ false) × NotNamed name sb i

pub record Vacant (name : Str) (sb : Superblock) (i : ℕ) : Type 0 where
  pub inside : i < length sb
  pub unused : (slot_at sb i).state ≡ free
  pub fresh : NotNamed name sb i

pub next_free-Vacant :
    (name : Str) (sb : Superblock) (i : ℕ)
    → next_free_inode_index name sb ≡ inr i
    → Vacant name sb i
unfolding next_free_inode_index
next_free-Vacant name [] i h = cc
next_free-Vacant name (s ∷ sb) zero h = ground arith
next_free-Vacant name (s ∷ sb) (suc i) h = ground (arith, next_free-Vacant name sb i)

pub not_named :
    (name : Str) (sb : Superblock) (i : ℕ)
    → Vacant name sb i
    → str_eq (inode_at sb i).path name ≡ false
not_named name [] i v = absurd (omega (arith, v.inside))
not_named name (s ∷ sb) zero v = v.fresh
not_named name (s ∷ sb) (suc i) v =
    not_named name sb i
      (record { inside = omega (arith, v.inside); unused = v.unused; fresh = v.fresh.1 })

pub slot_at-IsRoot : (sb : Superblock) → HasRoot sb → IsRoot (slot_at sb 0)
slot_at-IsRoot [] h = absurd h
slot_at-IsRoot (s ∷ sb) h = h

inode-free : (st : InodeState) {n : Inode} → Holds st n → st ≡ free → n ≡ zero_inode
inode-free free h e = h
inode-free occupied h e = cc

inode-occupied : (st : InodeState) {n : Inode} → Holds st n → st ≡ occupied → IsInode n
inode-occupied free h e = cc
inode-occupied occupied h e = h

pub inode_at-IsInode :
    {sb : Superblock} (i : ℕ)
    → IsValid sb
    → (slot_at sb i).state ≡ occupied
    → IsInode (inode_at sb i)
inode_at-IsInode {sb} i v e =
    inode-occupied (slot_at sb i).state (All-get_or IsSlot sb i free_slot v.slots refl) e

pub inode-zero :
    {sb : Superblock} (i : ℕ)
    → IsValid sb
    → (slot_at sb i).state ≡ free
    → inode_at sb i ≡ zero_inode
inode-zero {sb} i v e =
    inode-free (slot_at sb i).state (All-get_or IsSlot sb i free_slot v.slots refl) e

-- A new name is never the empty string, nor its slot the root's.
pub Vacant-ne_nil :
    {name : Str} {sb : Superblock} {i : ℕ} → IsValid sb → Vacant name sb i → (name ≢ []) × (i ≢ 0)
unfolding str_eq
Vacant-ne_nil {name} {sb} {i} v h =
    let empty : (inode_at sb i).path ≡ [] = ap (λ n. n.path) (inode-zero i v h.unused) in
    (
      λ e. cc (not_named name sb i h, ap (λ s. str_eq s []) empty),
      λ e. cc (slot_at-IsRoot sb v.root).used,
    )

-- A lookup finds slot 0 for the path "/", and otherwise the first slot in use with the file name.
pub get_inode_index-cases :
    (path : Str) (sb : Superblock) (i : ℕ)
    → get_inode_index path sb ≡ some i
    → ((path ≡ root_path) × (i ≡ 0))
      ⊎ ((name : Str) × (get_filename_from_path path ≡ some name) × Found name sb i)
unfolding get_inode_index
get_inode_index-cases [] sb i h = cc
get_inode_index-cases (a ∷ s) sb i h = elim (Bool-cases (str_eq (a ∷ s) root_path)) [
  | inl same ↦ inl (eq_of_str_eq (a ∷ s) root_path same, ground arith)
  | inr other ↦ inr (named (get_filename_from_path (a ∷ s)) refl (rw other at h))
]
  where
    named :
        (o : Option Str)
        → get_filename_from_path (a ∷ s) ≡ o
        → (elim o [ none ↦ none | some name ↦ find_inode name sb ]) ≡ some i
        → (name : Str) × (get_filename_from_path (a ∷ s) ≡ some name) × Found name sb i
    named none e h' = cc
    named (some name) e h' = (name, e, find_inode-Found name sb i h')

-- The slot that a lookup finds is in use.
pub index-used :
    {sb : Superblock} (path : Str) (i : ℕ)
    → IsValid sb
    → get_inode_index path sb ≡ some i
    → (slot_at sb i).state ≡ occupied
index-used {sb} path i v h = elim (get_inode_index-cases path sb i h) [
  | inl (is_root, e) ↦ rw e (slot_at-IsRoot sb v.root).used
  | inr (name, e, found) ↦ found.used
]

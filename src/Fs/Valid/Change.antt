-- ===== src/Fs/Valid/Change.antt =====
-- The handlers that change or remove an inode keep the superblock well-formed.
use native.Mathlib.Decide.{ℕ_discrete}
use sisop_mendez.Base.{
  Bool-cases, List, Option, [], arith, inl, inr, length, ltb, lt→ltb, none, refl, set, some, true,
  ℕ, ◌<◌, ◌∙◌, ◌∷◌, ◌≡◌, ◌≢◌,
}
use sisop_mendez.Fs.Handlers.{
  at_index, inode_at, put_inode, rmdir, rmdir_at, slot_at, unlink, utimens,
}
use sisop_mendez.Fs.Paths.{get_filename_from_path, root_path, str_eq, strrchr}
use sisop_mendez.Fs.Table.{get_files_from, get_files_in_directory, get_inode_index}
use sisop_mendez.Fs.Types.{
  Inode, InodeState, Reply, Str, Superblock, enotempty, free, free_slot, is_directory, is_regular,
  occupied, throw,
}
use sisop_mendez.Fs.Valid.{HasRoot, Holds, IsInode, IsRoot, IsValid, Leaves, set-IsValid}
use sisop_mendez.Fs.Valid.Lookup.{index-used, inode_at-IsInode, slot_at-IsRoot}
use sisop_mendez.Fs.Valid.Slash.{index_zero}

-- What no handler changes in an inode in use.
pub record SameName (n n' : Inode) : Type 0 where
  pub type : n'.type ≡ n.type
  pub path : n'.path ≡ n.path
  pub directory_path : n'.directory_path ≡ n.directory_path

Holds-occupied : (st : InodeState) {n : Inode} → st ≡ occupied → IsInode n → Holds st n
Holds-occupied free e h = cc
Holds-occupied occupied e h = h

-- An inode in use may be written over by one with the same name.
pub put_inode-IsValid :
    {sb : Superblock} (i : ℕ) (n : Inode)
    → IsValid sb
    → (slot_at sb i).state ≡ occupied
    → IsInode n
    → SameName (inode_at sb i) n
    → IsValid (put_inode sb i n)
put_inode-IsValid {sb} i n v used h same =
    set-IsValid sb i _ v (Holds-occupied (slot_at sb i).state used h) root
  where
    root : i ≡ 0 → IsRoot (record { inode = n; state = (slot_at sb i).state })
    root e =
        let r : IsRoot (slot_at sb i) = rw e (slot_at-IsRoot sb v.root) in
        record {
          used = used;
          type = same.type ∙ r.type;
          path = same.path ∙ r.path;
          outside = same.directory_path ∙ r.outside;
        }

-- A slot other than the root's may be freed.
pub free-IsValid : {sb : Superblock} (i : ℕ) → IsValid sb → i ≢ 0 → IsValid (set sb i free_slot)
free-IsValid {sb} i v h = set-IsValid sb i free_slot v refl (λ e. absurd (h e))

-- The inode that a lookup finds.
module _ {sb : Superblock} (path : Str) (i : ℕ) (v : IsValid sb)
    (h : get_inode_index path sb ≡ some i) where
  pub found-IsInode : IsInode (inode_at sb i)
  found-IsInode = inode_at-IsInode i v (index-used path i v h)

  pub update-IsValid :
      (n : Inode) → IsInode n → SameName (inode_at sb i) n → IsValid (put_inode sb i n)
  update-IsValid n = put_inode-IsValid i n v (index-used path i v h)

-- A handler leaves what it leaves at the slot that the lookup finds.
pub at_index-Leaves :
    (P : Superblock → Type 0) {A : Type 0} (o : Option ℕ) (sb : Superblock) (rest : ℕ → Reply A)
    → P sb
    → ((i : ℕ) → o ≡ some i → Leaves P (rest i))
    → Leaves P (at_index o sb rest)
at_index-Leaves P none sb rest h k = h
at_index-Leaves P (some i) sb rest h k = k i refl

-- The root is no regular file, so it is not slot 0 that holds one.
pub regular-ne_zero :
    {sb : Superblock} (i : ℕ) → IsValid sb → is_regular (inode_at sb i).type ≡ true → i ≢ 0
regular-ne_zero {sb} i v h e = cc (slot_at-IsRoot sb v.root).type

-- `fisopfs_unlink` keeps the superblock well-formed.
pub unlink-IsValid : (path : Str) (sb : Superblock) → IsValid sb → Leaves IsValid (unlink path sb)
unfolding unlink
unlink-IsValid path sb v = at_index-Leaves IsValid (get_inode_index path sb) sb _ v λ i found.
    elim (Bool-cases (is_regular (inode_at sb i).type)) [
      | inl file ↦ rw file (free-IsValid i v (regular-ne_zero i v file))
      | inr other ↦ rw other v
    ]

-- `fisopfs_utimens` keeps the superblock well-formed.
pub utimens-IsValid :
    (path : Str) (access modification : ℕ) (sb : Superblock)
    → IsValid sb
    → Leaves IsValid (utimens path access modification sb)
unfolding utimens
utimens-IsValid path access modification sb v =
    at_index-Leaves IsValid (get_inode_index path sb) sb _ v λ i found.
      let n = found-IsInode path i v found in
      update-IsValid path i v found _
        (record { named = n.named; sized = n.sized; ends = n.ends; fits = n.fits })
        (record { type = refl; path = refl; directory_path = refl })

-- The root's own entry counts among the files that its name, the empty string, selects.
root-files : (sb : Superblock) → HasRoot sb → 0 < length (get_files_from [] 0 sb)
unfolding get_files_from str_eq
root-files [] h = absurd h
root-files (s ∷ sb) h = rw h.outside (omega arith)

rmdir_at-root :
    (sb : Superblock)
    → HasRoot sb
    → rmdir_at 0 (get_files_in_directory root_path sb) sb ≡ throw enotempty sb
unfolding rmdir_at get_files_in_directory get_filename_from_path strrchr
rmdir_at-root sb h = rw (lt→ltb 0 _ (root-files sb h))

rmdir_at-other :
    {sb : Superblock} (i : ℕ) (files : Option (List ℕ))
    → IsValid sb
    → i ≢ 0
    → Leaves IsValid (rmdir_at i files sb)
unfolding rmdir_at
rmdir_at-other i none v h = tt
rmdir_at-other i (some files) v h = elim (Bool-cases (ltb 0 (length files))) [
  | inl full ↦ rw full v
  | inr empty ↦ rw empty (free-IsValid i v h)
]

-- `fisopfs_rmdir` keeps the superblock well-formed; the root is never empty.
pub rmdir-IsValid : (path : Str) (sb : Superblock) → IsValid sb → Leaves IsValid (rmdir path sb)
unfolding rmdir
rmdir-IsValid path sb v = at_index-Leaves IsValid (get_inode_index path sb) sb _ v λ i found.
    elim (Bool-cases (is_directory (inode_at sb i).type)) [
      | inl dir ↦ rw dir (elim (ℕ_discrete i 0) [
        | yes e ↦ rw (e, index_zero path v (rw e at found), rmdir_at-root sb v.root) v
        | no h ↦ rmdir_at-other i (get_files_in_directory path sb) v h
      ])
      | inr other ↦ rw other v
    ]

-- ===== src/Fs/Contents/Access.antt =====
-- `fisopfs_read` and `fisopfs_write` at a file that is there.
use sisop_mendez.Base.{
  List, Option-cases, [], ap, arith, get_or-set_self, inl, inr, length, refl, some, suc, true, zero,
  ℕ, ◌<◌, ◌∷◌, ◌≡◌, ◌≤◌,
}
use sisop_mendez.Fs.Files.{
  bytes_to_read, copy_in, copy_out, read, read_at, store_written, write, write_at, write_content,
  written_inode,
}
use sisop_mendez.Fs.Handlers.{inode_at, put_inode}
use sisop_mendez.Fs.Paths.{get_filename_from_path, strlen}
use sisop_mendez.Fs.Table.{find_inode, get_inode_index}
use sisop_mendez.Fs.Types.{Context, Inode, Str, Superblock, done, free_slot, is_regular}
use sisop_mendez.Fs.Valid.{IsValid}
use sisop_mendez.Fs.Valid.Lookup.{get_inode_index-cases}

-- Writing an inode over with its name kept changes no lookup.
pub find_inode-put :
    (name : Str) (sb : Superblock) (i : ℕ) (n : Inode)
    → n.path ≡ (inode_at sb i).path
    → find_inode name (put_inode sb i n) ≡ find_inode name sb
unfolding find_inode
find_inode-put name [] i n h = refl
find_inode-put name (s ∷ sb) zero n h = rw h
find_inode-put name (s ∷ sb) (suc i) n h = rw (find_inode-put name sb i n h)

pub lookup-put :
    (path : Str) (sb : Superblock) (i : ℕ) (n : Inode)
    → n.path ≡ (inode_at sb i).path
    → get_inode_index path (put_inode sb i n) ≡ get_inode_index path sb
unfolding get_inode_index
lookup-put [] sb i n h = refl
lookup-put (a ∷ s) sb i n h = elim (Option-cases (get_filename_from_path (a ∷ s))) [
  | inl missing ↦ rw missing
  | inr (name, named) ↦ rw (named, find_inode-put name sb i n h)
]

-- A `fisopfs_write` to a file that is there, when it returns.
pub record Written (c : Context) (path : Str) (bytes : List ℕ) (offset i n : ℕ)
    (sb sb' : Superblock) : Type 0 where
  pub content : List ℕ
  pub size : ℕ
  pub file : is_regular (inode_at sb i).type ≡ true
  pub within : offset ≤ (inode_at sb i).size
  pub count : n ≡ length bytes
  pub copied : copy_in (inode_at sb i).content offset bytes ≡ some content
  pub ends : strlen content ≡ some size
  pub result : sb' ≡ put_inode sb i (written_inode c (inode_at sb i) content size)

pub write-Written :
    (c : Context) (path : Str) (bytes : List ℕ) (offset i : ℕ) {n : ℕ} (sb : Superblock)
    {sb' : Superblock}
    → get_inode_index path sb ≡ some i
    → write c path bytes offset sb ≡ done n sb'
    → Written c path bytes offset i n sb sb'
unfolding write write_at store_written write_content
write-Written c path bytes offset i sb found h =
    elim (Option-cases (copy_in (inode_at sb i).content offset bytes)) [
      | inl outside ↦ absurd (ground arith)
      | inr (content, copied) ↦ elim (Option-cases (strlen content)) [
        | inl endless ↦ absurd (ground arith)
        | inr (size, ends) ↦ record {
          content = content;
          size = size;
          file = ground arith;
          within = ground arith;
          count = ground arith;
          copied = copied;
          ends = ends;
          result = ground arith;
        }
      ]
    ]

pub inode_at-put :
    (sb : Superblock) (i : ℕ) (n : Inode) → i < length sb → inode_at (put_inode sb i n) i ≡ n
inode_at-put sb i n h = ap (λ s. s.inode) (get_or-set_self sb i _ free_slot h)

pub index-lt :
    (path : Str) {sb : Superblock} (i : ℕ)
    → IsValid sb
    → get_inode_index path sb ≡ some i
    → i < length sb
index-lt path {sb} i v h = elim (get_inode_index-cases path sb i h) [
  | inl (is_root, e) ↦ omega (arith, v.sized)
  | inr (name, e, found) ↦ found.inside
]

-- `fisopfs_read` at a regular file, below its size.
pub read-file :
    (c : Context) (path : Str) (size offset i : ℕ) (sb : Superblock) {bytes : List ℕ}
    → get_inode_index path sb ≡ some i
    → is_regular (inode_at sb i).type ≡ true
    → offset < (inode_at sb i).size
    → copy_out (inode_at sb i).content offset (bytes_to_read (inode_at sb i) size offset)
      ≡ some bytes
    → read c path size offset sb
      ≡ done bytes (put_inode sb i (record (inode_at sb i) { last_access = c.time 0 }))
unfolding read read_at
read-file c path size offset i sb found file before copied = ground (arith, copied)

pub read-past :
    (c : Context) (path : Str) (size offset i : ℕ) (sb : Superblock)
    → get_inode_index path sb ≡ some i
    → is_regular (inode_at sb i).type ≡ true
    → (inode_at sb i).size ≤ offset
    → read c path size offset sb ≡ done [] sb
unfolding read
read-past c path size offset i sb found file past = ground arith

pub nil_of_length : (s : List ℕ) → length s ≡ 0 → s ≡ []
nil_of_length [] h = refl
nil_of_length (a ∷ s) h = absurd (omega arith)

pub written-path :
    (c : Context) (n : Inode) (content : List ℕ) (size : ℕ)
    → (written_inode c n content size).path ≡ n.path
unfolding written_inode
written-path c n content size = refl

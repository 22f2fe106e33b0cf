-- ===== src/Fs/Valid/Files.antt =====
-- The handlers of a file's content keep the superblock well-formed.
use sisop_mendez.Base.{
  Bool-cases, List, Option, Option-cases, arith, inl, inr, leb, length, ltb, none, refl, some, ℕ,
  ◌%◌, ◌+◌, ◌∙◌, ◌≡◌, ◌≤◌,
}
use sisop_mendez.Fs.Behaviour.Listing.{count}
use sisop_mendez.Fs.Files.{
  after_create, copy_in, read, read_at, store_resized, store_written, truncate, truncate_content,
  write, write_at, write_content, write_created, write_mode, written_inode,
}
use sisop_mendez.Fs.Handlers.{create, inode_at}
use sisop_mendez.Fs.Paths.{strlen}
use sisop_mendez.Fs.Table.{get_inode_index}
use sisop_mendez.Fs.Types.{
  Context, Reply, Str, Superblock, done, fault, is_directory, is_regular, max_data_size, regular,
  size_mod, throw,
}
use sisop_mendez.Fs.Valid.{IsInode, IsValid, Leaves}
use sisop_mendez.Fs.Valid.Change.{at_index-Leaves, found-IsInode, update-IsValid}
use sisop_mendez.Fs.Valid.Content.{length-copy_in, set-strlen, strlen-lt, truncate_content-keeps}
use sisop_mendez.Fs.Valid.New.{new_inode-IsValid}

module _ {sb : Superblock} (c : Context) (path : Str) (i : ℕ) (v : IsValid sb)
    (found : get_inode_index path sb ≡ some i) where
  read_at-IsValid : (o : Option (List ℕ)) → Leaves IsValid (read_at c i (inode_at sb i) o sb)
  unfolding read_at
  read_at-IsValid none = tt
  read_at-IsValid (some bytes) =
      let n = found-IsInode path i v found in
      update-IsValid path i v found _
        (record { named = n.named; sized = n.sized; ends = n.ends; fits = n.fits })
        (record { type = refl; path = refl; directory_path = refl })

  -- The inode that `fisopfs_write` stores.
  written-IsInode :
      (offset : ℕ) (bytes content : List ℕ) (size : ℕ)
      → copy_in (inode_at sb i).content offset bytes ≡ some content
      → strlen content ≡ some size
      → IsInode (written_inode c (inode_at sb i) content size)
  unfolding written_inode
  written-IsInode offset bytes content size copied ends =
      let n = found-IsInode path i v found in
      let same : length content ≡ max_data_size =
        length-copy_in _ offset bytes content copied ∙ n.sized in
      record {
        named = n.named;
        sized = rw (set-strlen content size ends) same;
        ends = rw (set-strlen content size ends, ends) (λ e. cc e);
        fits = omega (arith, strlen-lt content size ends, same);
      }

  store_written-IsValid :
      (count offset : ℕ) (bytes : List ℕ) (o : Option (List ℕ))
      → copy_in (inode_at sb i).content offset bytes ≡ o
      → Leaves IsValid (store_written i count (write_content c (inode_at sb i) o) sb)
  unfolding store_written write_content
  store_written-IsValid count offset bytes none copied = tt
  store_written-IsValid count offset bytes (some content) copied =
      elim (Option-cases (strlen content)) [
        | inl endless ↦ rw endless tt
        | inr (size, ends) ↦ rw ends (
            update-IsValid path i v found _ (written-IsInode offset bytes content size copied ends)
              (unfold written_inode in record { type = refl; path = refl; directory_path = refl }))
      ]

  store_resized-IsValid :
      (size : ℕ) (o : Option (List ℕ))
      → size ≤ max_data_size
      → truncate_content (inode_at sb i).content size ≡ o
      → Leaves IsValid (store_resized c i (inode_at sb i) size o sb)
  unfolding store_resized
  store_resized-IsValid size none fits h = tt
  store_resized-IsValid size (some content) fits h =
      let n = found-IsInode path i v found in
      let kept = truncate_content-keeps _ size content n.ends h in
      update-IsValid path i v found _
        (record { named = n.named; sized = kept.0 ∙ n.sized; ends = kept.1; fits = fits })
        (record { type = refl; path = refl; directory_path = refl })

-- `fisopfs_read` keeps the superblock well-formed.
pub read-IsValid :
    (c : Context) (path : Str) (size offset : ℕ) (sb : Superblock)
    → IsValid sb
    → Leaves IsValid (read c path size offset sb)
unfolding read
read-IsValid c path size offset sb v =
    at_index-Leaves IsValid (get_inode_index path sb) sb _ v λ i found.
      elim (Bool-cases (is_directory (inode_at sb i).type)) [
        | inl dir ↦ rw dir v
        | inr file ↦ rw file (elim (Bool-cases (leb (inode_at sb i).size offset)) [
          | inl past ↦ rw past v
          | inr before ↦ rw before (read_at-IsValid c path i v found _)
        ])
      ]

pub write_at-IsValid :
    (c : Context) (path : Str) (bytes : List ℕ) (offset : ℕ) (sb : Superblock)
    → IsValid sb
    → Leaves IsValid (write_at c bytes offset (get_inode_index path sb) sb)
unfolding write_at
write_at-IsValid c path bytes offset sb v =
    at_index-Leaves IsValid (get_inode_index path sb) sb _ v λ i found.
      elim (Bool-cases (ltb (inode_at sb i).size offset)) [
        | inl past ↦ rw past v
        | inr before ↦ rw before (elim (Bool-cases (is_regular (inode_at sb i).type)) [
          | inl file ↦
              rw file (store_written-IsValid c path i v found (length bytes) offset bytes _ refl)
          | inr dir ↦ rw dir v
        ])
      ]

created-IsValid :
    (c : Context) (path : Str) (bytes : List ℕ) (offset : ℕ) (r : Reply Unit)
    → Leaves IsValid r
    → Leaves IsValid (write_created c path bytes offset r)
unfolding write_created
created-IsValid c path bytes offset (done u sb) v = write_at-IsValid c path bytes offset sb v
created-IsValid c path bytes offset (throw e sb) v = v
created-IsValid c path bytes offset fault v = tt

-- `fisopfs_write` keeps the superblock well-formed, also where it creates the file.
pub write-IsValid :
    (c : Context) (path : Str) (bytes : List ℕ) (offset : ℕ) (sb : Superblock)
    → IsValid sb
    → Leaves IsValid (write c path bytes offset sb)
unfolding write create
write-IsValid c path bytes offset sb v =
    elim (Bool-cases (ltb max_data_size ((offset + length bytes) % size_mod))) [
      | inl big ↦ rw big v
      | inr fits ↦ rw fits (elim (Option-cases (get_inode_index path sb)) [
        | inl missing ↦ rw missing (
            created-IsValid (after_create c) path bytes offset _
              (new_inode-IsValid c path write_mode regular sb v))
        | inr (i, found) ↦ rw found (rw found at (write_at-IsValid c path bytes offset sb v))
      ])
    ]

-- `fisopfs_truncate` keeps the superblock well-formed.
pub truncate-IsValid :
    (c : Context) (path : Str) (size : ℕ) (sb : Superblock)
    → IsValid sb
    → Leaves IsValid (truncate c path size sb)
unfolding truncate
truncate-IsValid c path size sb v = elim (Bool-cases (ltb max_data_size size)) [
  | inl big ↦ rw big v
  | inr fits ↦ rw fits (
      at_index-Leaves IsValid (get_inode_index path sb) sb _ v λ i found.
        elim (Bool-cases (is_regular (inode_at sb i).type)) [
          | inl file ↦ rw file (store_resized-IsValid c path i v found size _ (ground arith) refl)
          | inr dir ↦ rw dir v
        ])
]

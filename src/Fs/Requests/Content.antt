-- ===== src/Fs/Requests/Content.antt =====
-- The handlers of a file's content come back.
use sisop_mendez.Fs.Handlers
use sisop_mendez.Fs.Files
use sisop_mendez.Base.{
  Bool-cases, List, Option-cases, arith, drop, inl, inr, leb, length, ltb, none, some, suc, take,
  zero, ℕ, ◌%◌, ◌+◌, ◌-◌, ◌<◌, ◌∙◌, ◌≡◌, ◌≢◌, ◌≤◌,
}
use sisop_mendez.Fs.Contents.Bytes.{IsSealed, copy_in-some, ends_of_zero, get_or-copy_in}
use sisop_mendez.Fs.Files.{
  after_create, bytes_to_read, copy_in, copy_out, read_at, store_resized, store_written,
  truncate_content, write_at, write_content, write_created, write_mode, written_inode,
}
use sisop_mendez.Fs.Handlers.{inode_at}
use sisop_mendez.Fs.Paths.{strlen}
use sisop_mendez.Fs.Requests.Sealed.{
  AllSealed, Returns, at_index-Returns, inode_at-IsSealed, new_inode-Returns, put-AllSealed,
  resize-IsSealed, zero_bytes-IsSealed,
}
use sisop_mendez.Fs.Table.{get_inode_index}
use sisop_mendez.Fs.Types.{
  Context, Inode, Reply, Str, Superblock, done, fault, is_directory, is_regular, max_data_size,
  max_path_length, regular, size_mod, throw,
}
use sisop_mendez.Fs.Valid.{IsValid, Leaves}
use sisop_mendez.Fs.Valid.Change.{found-IsInode}
use sisop_mendez.Fs.Valid.Content.{set-strlen}
use sisop_mendez.Fs.Valid.New.{new_inode-IsValid}

-- What `memcpy` reads lies inside the content.
copy_out-some :
    (s : List ℕ) (offset n : ℕ)
    → offset + n ≤ length s
    → (t : List ℕ) × (copy_out s offset n ≡ some t)
unfolding copy_out
copy_out-some s offset n h = (take n (drop offset s), ground arith)

bytes_to_read-le :
    (n : Inode) (size offset : ℕ)
    → offset + size < size_mod
    → offset < n.size
    → offset + bytes_to_read n size offset ≤ n.size
unfolding bytes_to_read
bytes_to_read-le n size offset h before = ground arith

pub read-Returns :
    (c : Context) (path : Str) (size offset : ℕ) (sb : Superblock)
    → IsValid sb
    → AllSealed sb
    → offset + size < size_mod
    → Returns AllSealed (Files.read c path size offset sb)
unfolding Files.read read_at
read-Returns c path size offset sb v h fits =
    at_index-Returns AllSealed (get_inode_index path sb) sb _ h λ i found.
      elim (Bool-cases (is_directory (inode_at sb i).type)) [
        | inl dir ↦ rw dir h
        | inr file ↦ rw file (elim (Bool-cases (leb (inode_at sb i).size offset)) [
          | inl past ↦ rw past h
          | inr before ↦
              let n = found-IsInode path i v found in
              let le = bytes_to_read-le (inode_at sb i) size offset fits (ground arith) in
              let (t, copied) =
                copy_out-some (inode_at sb i).content offset
                  (bytes_to_read (inode_at sb i) size offset) (omega (arith, n.fits, n.sized)) in
              rw (before, copied) (put-AllSealed sb i _ h (inode_at-IsSealed sb i h))
        ])
      ]

-- A write below the last byte leaves a sealed content, and its `strlen` stops.
store_written-Returns :
    (c : Context) (i offset : ℕ) (bytes : List ℕ) (sb : Superblock)
    → AllSealed sb
    → length (inode_at sb i).content ≡ max_data_size
    → offset + length bytes < max_data_size
    → Returns AllSealed (
        store_written i
          (length bytes)
          (write_content c (inode_at sb i) (copy_in (inode_at sb i).content offset bytes))
          sb)
unfolding store_written write_content written_inode
store_written-Returns c i offset bytes sb h sized fits =
    let (t, copied) = copy_in-some (inode_at sb i).content offset bytes (omega (arith, sized)) in
    let last =
      get_or-copy_in (inode_at sb i).content offset bytes (max_data_size - 1) 1 copied
        (omega arith) in
    let sealed : IsSealed t = last ∙ inode_at-IsSealed sb i h in
    elim (Option-cases (strlen t)) [
      | inl endless ↦ absurd (ends_of_zero t (max_data_size - 1) sealed endless)
      | inr (size, ends) ↦
          rw (copied, ends) (put-AllSealed sb i _ h (rw (set-strlen t size ends) sealed))
    ]

write_at-Returns :
    (c : Context) (path : Str) (bytes : List ℕ) (offset : ℕ) (sb : Superblock)
    → IsValid sb
    → AllSealed sb
    → offset + length bytes < max_data_size
    → Returns AllSealed (write_at c bytes offset (get_inode_index path sb) sb)
unfolding write_at
write_at-Returns c path bytes offset sb v h fits =
    at_index-Returns AllSealed (get_inode_index path sb) sb _ h λ i found.
      elim (Bool-cases (ltb (inode_at sb i).size offset)) [
        | inl past ↦ rw past h
        | inr before ↦ rw before (elim (Bool-cases (is_regular (inode_at sb i).type)) [
          | inl file ↦ rw file (
              store_written-Returns c i offset bytes sb h (found-IsInode path i v found).sized fits)
          | inr dir ↦ rw dir h
        ])
      ]

created-Returns :
    (c : Context) (path : Str) (bytes : List ℕ) (offset : ℕ) (r : Reply Unit)
    → Leaves IsValid r
    → Returns AllSealed r
    → offset + length bytes < max_data_size
    → Returns AllSealed (write_created c path bytes offset r)
unfolding write_created
created-Returns c path bytes offset (done u sb) v h fits =
    write_at-Returns c path bytes offset sb v h fits
created-Returns c path bytes offset (throw e sb) v h fits = h
created-Returns c path bytes offset fault v h fits = h

pub write-Returns :
    (c : Context) (path : Str) (bytes : List ℕ) (offset : ℕ) (sb : Superblock)
    → IsValid sb
    → AllSealed sb
    → length path < max_path_length
    → offset + length bytes < max_data_size
    → Returns AllSealed (Files.write c path bytes offset sb)
unfolding Files.write Handlers.create
write-Returns c path bytes offset sb v h short_path fits =
    elim (Bool-cases (ltb max_data_size ((offset + length bytes) % size_mod))) [
      | inl big ↦ rw big h
      | inr room ↦ rw room (elim (Option-cases (get_inode_index path sb)) [
        | inl missing ↦ rw missing (
            created-Returns (after_create c) path bytes offset _
              (new_inode-IsValid c path write_mode regular sb v)
              (new_inode-Returns c path write_mode regular sb h short_path) fits)
        | inr (i, found) ↦ rw found (rw found at (write_at-Returns c path bytes offset sb v h fits))
      ])
    ]

truncated-Returns :
    (c : Context) (i size : ℕ) (sb : Superblock)
    → AllSealed sb
    → strlen (inode_at sb i).content ≢ none
    → Returns AllSealed
        (store_resized c i (inode_at sb i) size (truncate_content (inode_at sb i).content size) sb)
unfolding store_resized truncate_content
truncated-Returns c i zero sb h ends =
    put-AllSealed sb i _ h (zero_bytes-IsSealed max_data_size 0 _ (inode_at-IsSealed sb i h))
truncated-Returns c i (suc n) sb h ends = elim (Option-cases (strlen (inode_at sb i).content)) [
  | inl endless ↦ absurd (ends endless)
  | inr (len, e) ↦
      rw e (put-AllSealed sb i _ h (resize-IsSealed _ (suc n) (suc len) (inode_at-IsSealed sb i h)))
]

pub truncate-Returns :
    (c : Context) (path : Str) (size : ℕ) (sb : Superblock)
    → IsValid sb
    → AllSealed sb
    → Returns AllSealed (Files.truncate c path size sb)
unfolding Files.truncate
truncate-Returns c path size sb v h = elim (Bool-cases (ltb max_data_size size)) [
  | inl big ↦ rw big h
  | inr fits ↦ rw fits (
      at_index-Returns AllSealed (get_inode_index path sb) sb _ h λ i found.
        elim (Bool-cases (is_regular (inode_at sb i).type)) [
          | inl file ↦ rw file (truncated-Returns c i size sb h (found-IsInode path i v found).ends)
          | inr dir ↦ rw dir h
        ])
]

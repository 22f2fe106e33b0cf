-- ===== src/Fs/Contents/Back.antt =====
-- A write, and the read that follows it.
use native.Mathlib.Decide.{dec_lt}
use sisop_mendez.Base.{
  Lacks, List, Option-cases, ap, arith, inl, inr, length, some, sym, true, ℕ, ◌+◌, ◌-◌, ◌<◌, ◌∙◌,
  ◌≡◌, ◌≤◌,
}
use sisop_mendez.Fs.Contents.Access.{
  Written, index-lt, inode_at-put, lookup-put, nil_of_length, read-file, read-past, write-Written,
  written-path,
}
use sisop_mendez.Fs.Contents.Bytes.{
  IsSealed, copy_in-some, copy_in-strlen, copy_out-copy_in, ends_of_zero, get_or-copy_in,
}
use sisop_mendez.Fs.Files.{
  bytes_to_read, read, store_written, write, write_at, write_content, written_inode,
}
use sisop_mendez.Fs.Handlers.{inode_at, put_inode}
use sisop_mendez.Fs.Paths.{strlen}
use sisop_mendez.Fs.Table.{get_inode_index}
use sisop_mendez.Fs.Types.{Context, Str, Superblock, done, is_regular, max_data_size}
use sisop_mendez.Fs.Valid.{IsValid}
use sisop_mendez.Fs.Valid.Change.{found-IsInode}
use sisop_mendez.Fs.Valid.Content.{length-copy_in, set-strlen, strlen-lt}

-- The file as a write leaves it.
module _ (c : Context) (path : Str) (bytes : List ℕ) (offset i : ℕ) {n : ℕ} (sb : Superblock)
    {sb' : Superblock} (v : IsValid sb) (found : get_inode_index path sb ≡ some i)
    (w : Written c path bytes offset i n sb sb') where
  pub after : inode_at sb' i ≡ written_inode c (inode_at sb i) w.content w.size
  after = ap (λ b. inode_at b i) w.result ∙ inode_at-put sb i _ (index-lt path i v found)

  pub after-file : is_regular (inode_at sb' i).type ≡ true
  unfolding written_inode
  after-file = rw after w.file

  pub after-size : (inode_at sb' i).size ≡ w.size
  unfolding written_inode
  after-size = rw after

  pub after-content : (inode_at sb' i).content ≡ w.content
  unfolding written_inode
  after-content = rw after (set-strlen w.content w.size w.ends)

  pub after-found : get_inode_index path sb' ≡ some i
  after-found =
      ap (get_inode_index path) w.result
      ∙ lookup-put path sb i _ (written-path c (inode_at sb i) w.content w.size)
      ∙ found

-- Its bytes, if the offset is in the string or at its end, and no byte is NUL.
module _ (c : Context) (path : Str) (bytes : List ℕ) (offset i len : ℕ) {n : ℕ} (sb : Superblock)
    {sb' : Superblock} (v : IsValid sb) (found : get_inode_index path sb ≡ some i)
    (ends : strlen (inode_at sb i).content ≡ some len) (le : offset ≤ len) (lacks : Lacks 0 bytes)
    (w : Written c path bytes offset i n sb sb') where
  room : offset + length bytes ≤ w.size
  room =
      copy_in-strlen (inode_at sb i).content offset bytes len w.size ends le lacks w.copied w.ends

  after-bytes : bytes_to_read (inode_at sb' i) (length bytes) offset ≡ length bytes
  unfolding bytes_to_read
  after-bytes = ground (
    arith,
    (after-size c path bytes offset i sb v found w),
    room,
    strlen-lt w.content w.size w.ends,
    length-copy_in _ offset bytes w.content w.copied,
    (found-IsInode path i v found).sized,
  )

  reads_back :
      (c' : Context)
      → (sb'' : Superblock) × (read c' path (length bytes) offset sb' ≡ done bytes sb'')
  reads_back c' = elim (dec_lt offset w.size) [
    | yes before ↦ (
      _,
      read-file c' path (length bytes) offset i sb' (after-found c path bytes offset i sb v found w)
          (after-file c path bytes offset i sb v found w)
          (rw (after-size c path bytes offset i sb v found w) before)
          (rw (after-bytes, (after-content c path bytes offset i sb v found w))
            (copy_out-copy_in _ offset bytes w.copied)),
    )
    | no past ↦ (
      sb',
      read-past c' path (length bytes) offset i sb' (after-found c path bytes offset i sb v found w)
            (after-file c path bytes offset i sb v found w)
            (omega (arith, (after-size c path bytes offset i sb v found w)))
          ∙ ap (λ b. done b sb') (sym (nil_of_length bytes (omega (arith, room)))),
    )
  ]

-- A write that stays below the last byte of a sealed buffer returns.
pub write-done :
    (c : Context) (path : Str) (bytes : List ℕ) (offset i : ℕ) (sb : Superblock)
    → IsValid sb
    → get_inode_index path sb ≡ some i
    → is_regular (inode_at sb i).type ≡ true
    → offset ≤ (inode_at sb i).size
    → IsSealed (inode_at sb i).content
    → offset + length bytes < max_data_size
    → (sb' : Superblock) × (write c path bytes offset sb ≡ done (length bytes) sb')
unfolding write write_at store_written write_content
write-done c path bytes offset i sb v found file within sealed fits =
    let n = found-IsInode path i v found in
    let (t, copied) = copy_in-some (inode_at sb i).content offset bytes (omega (arith, n.sized)) in
    let last =
      get_or-copy_in (inode_at sb i).content offset bytes (max_data_size - 1) 1 copied
        (omega arith) in
    elim (Option-cases (strlen t)) [
      | inl endless ↦ absurd (ends_of_zero t (max_data_size - 1) (last ∙ sealed) endless)
      | inr (size, ends) ↦ (
        put_inode sb i (written_inode c (inode_at sb i) t size),
        ground (arith, found, copied, ends),
      )
    ]

-- A write to a regular file whose size is at least the length of its string, at an offset inside
-- that string or at its end, of bytes without a NUL that stay below the last byte of the buffer,
-- which is NUL, returns their number, and a read of that many bytes at that offset then returns
-- them, whatever the clock says.
pub read-write :
    (c c' : Context) (path : Str) (bytes : List ℕ) (offset i len : ℕ) (sb : Superblock)
    → IsValid sb
    → get_inode_index path sb ≡ some i
    → is_regular (inode_at sb i).type ≡ true
    → strlen (inode_at sb i).content ≡ some len
    → offset ≤ len
    → len ≤ (inode_at sb i).size
    → IsSealed (inode_at sb i).content
    → Lacks 0 bytes
    → offset + length bytes < max_data_size
    → (sb' sb'' : Superblock) × (write c path bytes offset sb ≡ done (length bytes) sb')
      × (read c' path (length bytes) offset sb' ≡ done bytes sb'')
read-write c c' path bytes offset i len sb v found file ends le fit sealed lacks room =
    let (sb', wrote) = write-done c path bytes offset i sb v found file (omega arith) sealed room in
    let w = write-Written c path bytes offset i sb found wrote in
    let (sb'', back) = reads_back c path bytes offset i len sb v found ends le lacks w c' in
    (sb', sb'', wrote, back)

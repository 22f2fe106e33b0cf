-- ===== src/Fs/Files.antt =====
-- fisopfs.c: the handlers of a file's content. Offsets and sizes are those that the system passes,
-- which are never negative.
use mathlib.Core.Option
use sisop_mendez.Base.{
  List, Option, [], drop, if◌then◌else◌, leb, length, ltb, none, not, set, some, suc, take, zero, ℕ,
  ◌%◌, ◌++◌, ◌+◌, ◌-◌,
}
use sisop_mendez.Fs.Handlers.{at_index, create, inode_at, put_inode}
use sisop_mendez.Fs.Paths.{strlen}
use sisop_mendez.Fs.Table.{get_inode_index}
use sisop_mendez.Fs.Types.{
  Context, Inode, Reply, Str, Superblock, done, eacces, efbig, einval, eisdir, fault, is_directory,
  is_regular, max_data_size, size_mod, throw,
}

-- `memcpy(buf, content + offset, n)`; `none` past the end of the content.
unfoldable pub copy_out : List ℕ → ℕ → ℕ → Option (List ℕ)
copy_out content offset n =
    if ltb (length content) (offset + n) then none else some (take n (drop offset content))

-- `memcpy(content + offset, data, n)`, the `n` bytes being `bytes`.
unfoldable pub copy_in : List ℕ → ℕ → List ℕ → Option (List ℕ)
copy_in content offset bytes =
    if ltb (length content) (offset + length bytes)
    then none
    else some (take offset content ++ (bytes ++ drop (offset + length bytes) content))

-- `bytes_to_read`
unfoldable pub bytes_to_read : Inode → ℕ → ℕ → ℕ
bytes_to_read n size offset =
    if ltb n.size ((offset + size) % size_mod) then n.size - offset else size

-- `fisopfs_read` at a regular file; `bytes` is what `memcpy` delivers.
unfoldable pub read_at : Context → ℕ → Inode → Option (List ℕ) → Superblock → Reply (List ℕ)
read_at c i n none sb = fault
read_at c i n (some bytes) sb = done bytes (put_inode sb i (record n { last_access = c.time 0 }))

unfoldable pub read : Context → Str → ℕ → ℕ → Superblock → Reply (List ℕ)
read c path size offset sb = at_index (get_inode_index path sb) sb λ i.
    let n = inode_at sb i in
    if is_directory n.type
    then throw eisdir sb
    else if leb n.size offset
    then done [] sb
    else read_at c i n (copy_out n.content offset (bytes_to_read n size offset)) sb

-- What `fisopfs_write` makes of the inode, `size` being the `strlen` of the new content.
unfoldable pub written_inode : Context → Inode → List ℕ → ℕ → Inode
written_inode c n content size = record n {
  content = set content size 0;
  last_access = c.time 0;
  last_modification = c.time 1;
  size = size;
}

-- `none` where `memcpy` leaves the content, or `strlen` finds no NUL in it.
unfoldable pub write_content : Context → Inode → Option (List ℕ) → Option Inode
write_content c n none = none
write_content c n (some content) = Option.map (written_inode c n content) (strlen content)

unfoldable pub store_written : ℕ → ℕ → Option Inode → Superblock → Reply ℕ
store_written i count none sb = fault
store_written i count (some n) sb = done count (put_inode sb i n)

-- `fisopfs_write` behind the second lookup.
unfoldable pub write_at : Context → List ℕ → ℕ → Option ℕ → Superblock → Reply ℕ
write_at c bytes offset index sb = at_index index sb λ i.
    let n = inode_at sb i in
    if ltb n.size offset
    then throw einval sb
    else if not (is_regular n.type)
    then throw eacces sb
    else store_written i (length bytes) (write_content c n (copy_in n.content offset bytes)) sb

abbrev pub write_mode : ℕ
write_mode = 33204

-- `later` is the context of the clock once `fisopfs_create` has read it.
unfoldable pub write_created : Context → Str → List ℕ → ℕ → Reply Unit → Reply ℕ
write_created later path bytes offset (throw e sb) = throw e sb
write_created later path bytes offset fault = fault
write_created later path bytes offset (done u sb) =
    write_at later bytes offset (get_inode_index path sb) sb

-- A context whose clock has been read three times, by `new_inode`.
abbrev pub after_create : Context → Context
after_create c = record { uid = c.uid; gid = c.gid; time = λ k. c.time (k + 3) }

unfoldable pub write : Context → Str → List ℕ → ℕ → Superblock → Reply ℕ
write c path bytes offset sb =
    if ltb max_data_size ((offset + length bytes) % size_mod)
    then throw efbig sb
    else elim (get_inode_index path sb) [
      | none ↦ write_created (after_create c) path bytes offset (create c path write_mode sb)
      | some i ↦ write_at c bytes offset (some i) sb
    ]

-- `for (i = from; i < from + n; i++) content[i] = 0`
unfoldable pub zero_bytes : ℕ → ℕ → List ℕ → List ℕ
zero_bytes zero from content = content
zero_bytes (suc n) from content = zero_bytes n (suc from) (set content from 0)

-- The loops and the last write of `fisopfs_truncate`, with `len = content_size`.
unfoldable pub resize : List ℕ → ℕ → ℕ → List ℕ
resize content size len =
    let shorter = if ltb size len then size else len in
    let cut = zero_bytes (len - shorter) shorter content in
    let grown = zero_bytes (size - len) len cut in if ltb size len then set grown size 0 else grown

-- The content of the inode after `fisopfs_truncate`; `none` where `strlen` finds no NUL.
unfoldable pub truncate_content : List ℕ → ℕ → Option (List ℕ)
truncate_content content zero = some (zero_bytes max_data_size 0 content)
truncate_content content (suc n) =
    Option.map (λ len. resize content (suc n) (suc len)) (strlen content)

unfoldable pub store_resized : Context → ℕ → Inode → ℕ → Option (List ℕ) → Superblock → Reply Unit
store_resized c i n size none sb = fault
store_resized c i n size (some content) sb =
    done tt
      (put_inode sb i (record n { content = content; size = size; last_modification = c.time 0 }))

unfoldable pub truncate : Context → Str → ℕ → Superblock → Reply Unit
truncate c path size sb =
    if ltb max_data_size size
    then throw einval sb
    else at_index (get_inode_index path sb) sb λ i.
      let n = inode_at sb i in
      if not (is_regular n.type)
      then throw eisdir sb
      else store_resized c i n size (truncate_content n.content size) sb

-- ===== src/Fs/Behaviour/Misses.antt =====
-- Inputs at which the handlers of fisopfs do not do what they mean to.
use mathlib.Core.List.{append-nil}
use mathlib.Core.Option.{some-injective}
use mathlib.Core.Path.{subst}
use sisop_mendez.Base.{
  Bool-cases, Lacks, List, [], ap, arith, drop, false, get_or-set_ne, get_or-set_self, inl, inr,
  length, none, refl, set, some, suc, sym, take, true, zero, ℕ, ◌++◌, ◌+◌, ◌<◌, ◌∙◌, ◌∷◌, ◌≡◌, ◌≢◌,
  ◌≤◌,
}
use sisop_mendez.Fs.Behaviour.Listing.{path-fresh}
use sisop_mendez.Fs.Contents.Access.{Written, read-past, write-Written}
use sisop_mendez.Fs.Contents.Back.{after-file, after-found, after-size}
use sisop_mendez.Fs.Contents.Bytes.{copy_in-parts}
use sisop_mendez.Fs.Files.{copy_in, read, store_written, write, write_at, write_content}
use sisop_mendez.Fs.Handlers.{inode_at, slot_at}
use sisop_mendez.Fs.Paths.{get_filename_from_path, str_eq, strlen}
use sisop_mendez.Fs.Requests.Sealed.{fits-overflows, length-filename, length-pos}
use sisop_mendez.Fs.Table.{
  directory_of, find_inode, fresh_inode, get_inode_index, is_child_inode, new_inode, new_named,
  next_free_inode_index, overflows, place_inode,
}
use sisop_mendez.Fs.Types.{
  Context, Inode, InodeType, Slot, Str, Superblock, directory, done, fault, free_slot, is_regular,
  max_data_size, max_path_length, occupied, regular,
}
use sisop_mendez.Fs.Valid.{IsValid}
use sisop_mendez.Fs.Valid.Change.{found-IsInode}
use sisop_mendez.Fs.Valid.Lookup.{Found, Vacant, eq_of_str_eq, find_inode-Found, next_free-Vacant}

Lacks-endless : (s : List ℕ) → Lacks 0 s → strlen s ≡ none
unfolding strlen
Lacks-endless [] l = refl
Lacks-endless (zero ∷ s) l = cc l.0
Lacks-endless (suc a ∷ s) l = rw (Lacks-endless s l.1)

drop_all : (s : List ℕ) (n : ℕ) → length s ≤ n → drop n s ≡ []
drop_all [] zero h = refl
drop_all [] (suc n) h = refl
drop_all (a ∷ s) zero h = absurd (omega arith)
drop_all (a ∷ s) (suc n) h = drop_all s n (omega arith)

copy_in-whole : (s bytes : List ℕ) → length bytes ≡ length s → copy_in s 0 bytes ≡ some bytes
unfolding copy_in
copy_in-whole s bytes e =
    ground (arith, drop_all s (0 + length bytes) (omega arith), append-nil bytes)

-- A write that fills the whole buffer with bytes other than NUL passes the size check and then
-- reads past the end of the buffer, looking for a NUL.
pub write-full_fault :
    (c : Context) (path : Str) (bytes : List ℕ) (i : ℕ) (sb : Superblock)
    → IsValid sb
    → get_inode_index path sb ≡ some i
    → is_regular (inode_at sb i).type ≡ true
    → Lacks 0 bytes
    → length bytes ≡ max_data_size
    → write c path bytes 0 sb ≡ fault
unfolding write write_at store_written write_content
write-full_fault c path bytes i sb v found file l full = ground (
  arith,
  found,
  file,
  copy_in-whole (inode_at sb i).content bytes (full ∙ sym (found-IsInode path i v found).sized),
  Lacks-endless bytes l,
)

long-overflows :
    (type : InodeType) (path name : Str)
    → max_path_length ≤ length name
    → overflows type path name ≡ true
unfolding overflows
long-overflows regular path name h = ground arith
long-overflows directory path name h = ground arith

-- A name of 256 bytes or more, in a path that passes the length check, is copied past the end of
-- `new_inode.path`, if a slot is free for it.
pub new_inode-long_fault :
    (c : Context) (path name : Str) (mode i : ℕ) (type : InodeType) (sb : Superblock)
    → get_filename_from_path path ≡ some name
    → next_free_inode_index name sb ≡ inr i
    → max_path_length ≤ length name
    → length path ≤ max_data_size
    → new_inode c path mode type sb ≡ fault
unfolding new_inode new_named place_inode
new_inode-long_fault c path name mode i type sb named free_at long fits =
    ground
      (arith, named, free_at, long-overflows type path name long, length-filename path name named)

-- A free slot in front of an inode with the name hides it from the check: the inode is made all the
-- same, and two slots in use then have one name.
pub new_inode-twice :
    (c : Context) (path name : Str) (mode i j : ℕ) (type : InodeType) (sb : Superblock)
    → IsValid sb
    → get_filename_from_path path ≡ some name
    → length path < max_path_length
    → next_free_inode_index name sb ≡ inr i
    → find_inode name sb ≡ some j
    → (sb' : Superblock) × (new_inode c path mode type sb ≡ done tt sb')
      × (i ≢ j)
      × ((slot_at sb' i).state ≡ occupied)
      × ((slot_at sb' j).state ≡ occupied)
      × ((inode_at sb' i).path ≡ (inode_at sb' j).path)
unfolding new_inode new_named place_inode
new_inode-twice c path name mode i j type sb v named fits free_at there =
    let new : Slot = record { inode = fresh_inode c path mode type name; state = occupied } in
    (
      set sb i new,
      ground (
        arith,
        named,
        free_at,
        length-pos path name named,
        fits-overflows type path name (length-pos path name named) fits
            (length-filename path name named),
      ),
      apart,
      ap (λ s. s.state) (get_or-set_self sb i new free_slot vacant.inside),
      ap (λ s. s.state) (get_or-set_ne sb new free_slot apart) ∙ found.used,
      ap (λ s. s.inode.path) (get_or-set_self sb i new free_slot vacant.inside)
          ∙ path-fresh c path mode type name
          ∙ sym found.path
          ∙ sym (ap (λ s. s.inode.path) (get_or-set_ne sb new free_slot apart)),
    )
  where
    vacant : Vacant name sb i
    vacant = next_free-Vacant name sb i free_at

    found : Found name sb j
    found = find_inode-Found name sb j there

    apart : i ≢ j
    apart e = cc (vacant.unused, found.used, ap (λ k. (slot_at sb k).state) e)

-- A file two directories deep is put in a directory of a name with a slash, which no inode with a
-- file name is: no listing of such a directory has it.
pub nested-unlisted :
    (path : Str) (dir child : Inode)
    → Lacks b'/' dir.path
    → child.directory_path ≡ directory_of regular path
    → ¬ Lacks b'/' (directory_of regular path)
    → is_child_inode dir child ≡ false
unfolding is_child_inode
nested-unlisted path dir child lacks e deep =
    elim (Bool-cases (str_eq child.directory_path dir.path)) [
      | inl same ↦ absurd (
          deep
            (subst (Lacks b'/') (sym (eq_of_str_eq child.directory_path dir.path same) ∙ e) lacks))
      | inr other ↦ other
    ]

strlen-take :
    (s r : List ℕ) (len k : ℕ) → strlen s ≡ some len → len < k → strlen (take k s ++ r) ≡ some len
unfolding strlen
strlen-take [] r len k h lt = cc
strlen-take (a ∷ s) r len zero h lt = absurd (omega arith)
strlen-take (zero ∷ s) r len (suc k) h lt = h
strlen-take (suc a ∷ s) r zero (suc k) h lt = ground arith
strlen-take (suc a ∷ s) r (suc len) (suc k) h lt = ground (arith, strlen-take s r len k)

-- A file whose size was grown by `truncate` past its string loses what is written there: a write at
-- an offset past the string, which the size allows, returns the number of bytes and sets the size
-- back to the length of the string, so that a read at that offset returns nothing.
pub write-past_string :
    (c c' : Context) (path : Str) (bytes : List ℕ) (size offset i len : ℕ) {n : ℕ} (sb : Superblock)
    {sb' : Superblock}
    → IsValid sb
    → get_inode_index path sb ≡ some i
    → strlen (inode_at sb i).content ≡ some len
    → len < offset
    → write c path bytes offset sb ≡ done n sb'
    → ((inode_at sb' i).size ≡ len) × (read c' path size offset sb' ≡ done [] sb')
write-past_string c c' path bytes size offset i len {n} sb {sb'} v found ends past h = (
  shrunk,
  read-past c' path size offset i sb' (after-found c path bytes offset i sb v found w)
      (after-file c path bytes offset i sb v found w) (omega (arith, shrunk)),
)
  where
    w : Written c path bytes offset i n sb sb'
    w = write-Written c path bytes offset i sb found h

    same : w.size ≡ len
    same = some-injective _ _ (
        sym w.ends
        ∙ ap strlen (copy_in-parts (inode_at sb i).content offset bytes w.copied).1
        ∙ strlen-take (inode_at sb i).content _ len offset ends past)

    shrunk : (inode_at sb' i).size ≡ len
    shrunk = after-size c path bytes offset i sb v found w ∙ same

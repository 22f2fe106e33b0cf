-- ===== src/Fs/Requests/Table.antt =====
-- The handlers of the table come back.
use sisop_mendez.Fs.Handlers
use sisop_mendez.Base.{
  All-set, Bool-cases, List, [], ap, arith, inl, inr, length, ltb, some, ℕ, ◌∙◌, ◌≡◌,
}
use sisop_mendez.Fs.Handlers.{inode_at, rmdir_at}
use sisop_mendez.Fs.Names.Made.{filename-root}
use sisop_mendez.Fs.Paths.{get_filename_from_path}
use sisop_mendez.Fs.Requests.Sealed.{
  AllSealed, IsSealedSlot, Returns, at_index-Returns, inode_at-IsSealed, put-AllSealed,
  zero_content-IsSealed,
}
use sisop_mendez.Fs.Table.{get_files_from, get_files_in_directory, get_inode_index}
use sisop_mendez.Fs.Types.{Str, Superblock, is_directory, is_regular}
use sisop_mendez.Fs.Valid.Lookup.{get_inode_index-cases}

rmdir_at-Returns :
    (i : ℕ) (files : List ℕ) (sb : Superblock)
    → AllSealed sb
    → Returns AllSealed (rmdir_at i (some files) sb)
unfolding Handlers.rmdir_at
rmdir_at-Returns i files sb h = elim (Bool-cases (ltb 0 (length files))) [
  | inl full ↦ rw full h
  | inr empty ↦ rw empty (All-set IsSealedSlot sb i _ h zero_content-IsSealed)
]

-- A path that is found has a file name.
filename-some :
    (path : Str) (sb : Superblock) (i : ℕ)
    → get_inode_index path sb ≡ some i
    → (name : Str) × (get_filename_from_path path ≡ some name)
filename-some path sb i h = elim (get_inode_index-cases path sb i h) [
  | inl (is_root, e) ↦ ([], ap get_filename_from_path is_root ∙ filename-root)
  | inr (name, e, found) ↦ (name, e)
]

files-some :
    (path name : Str) (sb : Superblock)
    → get_filename_from_path path ≡ some name
    → get_files_in_directory path sb ≡ some (get_files_from name 0 sb)
unfolding get_files_in_directory
files-some path name sb named = ground arith

pub rmdir-Returns :
    (path : Str) (sb : Superblock) → AllSealed sb → Returns AllSealed (Handlers.rmdir path sb)
unfolding Handlers.rmdir
rmdir-Returns path sb h = at_index-Returns AllSealed (get_inode_index path sb) sb _ h λ i found.
    let (name, named) = filename-some path sb i found in
    elim (Bool-cases (is_directory (inode_at sb i).type)) [
      | inl dir ↦ rw (dir, files-some path name sb named) (rmdir_at-Returns i _ sb h)
      | inr other ↦ rw other h
    ]

pub unlink-Returns :
    (path : Str) (sb : Superblock) → AllSealed sb → Returns AllSealed (Handlers.unlink path sb)
unfolding Handlers.unlink
unlink-Returns path sb h = at_index-Returns AllSealed (get_inode_index path sb) sb _ h λ i found.
    elim (Bool-cases (is_regular (inode_at sb i).type)) [
      | inl file ↦ rw file (All-set IsSealedSlot sb i _ h zero_content-IsSealed)
      | inr other ↦ rw other h
    ]

pub utimens-Returns :
    (path : Str) (access modification : ℕ) (sb : Superblock)
    → AllSealed sb
    → Returns AllSealed (Handlers.utimens path access modification sb)
unfolding Handlers.utimens
utimens-Returns path access modification sb h =
    at_index-Returns AllSealed (get_inode_index path sb) sb _ h
      λ i found. put-AllSealed sb i _ h (inode_at-IsSealed sb i h)

-- ===== src/Fs/Behaviour/Listing.antt =====
-- `fisopfs_readdir` and `fisopfs_getattr`.
use mathlib.Core.Option.{some-injective}
use mathlib.Core.Path.{subst}
use sisop_mendez.Base.{
  Bool, Lacks, List, [], ap, arith, drop, if◌then◌else◌, length, refl, set, some, suc, sym, true,
  zero, ℕ, ◌&&◌, ◌+◌, ◌<◌, ◌∙◌, ◌∷◌, ◌≡◌, ◌≢◌,
}
use sisop_mendez.Fs.Handlers.{child_names, dot, dot_dot, inode_at, readdir, readdir_at, slot_at}
use sisop_mendez.Fs.Names.Made.{Created, new_inode-Created}
use sisop_mendez.Fs.Paths.{
  get_filename_from_path, get_parent_path_from_path, root_path, str_eq, strrchr,
}
use sisop_mendez.Fs.Table.{directory_of, fresh_inode, get_inode_index, is_child_inode, new_inode}
use sisop_mendez.Fs.Types.{
  Context, Inode, InodeType, Slot, Str, Superblock, directory, done, free, is_directory,
  is_occupied, occupied, regular,
}
use sisop_mendez.Fs.Valid.{HasRoot, IsValid, Leaves}
use sisop_mendez.Fs.Valid.Lookup.{Vacant-ne_nil, slot_at-IsRoot, str_eq_refl}
use sisop_mendez.Fs.Valid.New.{new_inode-IsValid}
use sisop_mendez.Fs.Valid.Slash.{strrchr-Lacks}

-- A slot in use whose inode is in the directory called `name`.
abbrev pub is_child : Str → Slot → Bool
is_child name s = is_occupied s.state && str_eq s.inode.directory_path name

-- The names of the children, in the order of the table.
abbrev pub names_in : Str → List Slot → List Str
names_in name [] = []
names_in name (s ∷ sb) =
    if is_child name s then s.inode.path ∷ names_in name sb else names_in name sb

child_names-eq : (dir : Inode) (sb : Superblock) → child_names dir sb ≡ names_in dir.path sb
unfolding child_names is_child_inode
child_names-eq dir [] = refl
child_names-eq dir (s ∷ sb) = ground (arith, child_names-eq dir sb)

-- The name is listed as often as slots in use of that directory carry it.
abbrev pub count : Str → List Str → ℕ
count name [] = 0
count name (s ∷ l) = if str_eq s name then suc (count name l) else count name l

abbrev pub count_slots : Str → Str → Superblock → ℕ
count_slots dir name [] = 0
count_slots dir name (s ∷ sb) =
    if is_child dir s && str_eq s.inode.path name
    then suc (count_slots dir name sb)
    else count_slots dir name sb

count-names_in :
    (dir name : Str) (sb : Superblock) → count name (names_in dir sb) ≡ count_slots dir name sb
count-names_in dir name [] = refl
count-names_in dir name (s ∷ sb) = ground (arith, count-names_in dir name sb)

count_slots-set :
    (dir name : Str) (sb : Superblock) (i : ℕ) (s : Slot)
    → i < length sb
    → (slot_at sb i).state ≡ free
    → is_child dir s ≡ true
    → s.inode.path ≡ name
    → count_slots dir name (set sb i s) ≡ suc (count_slots dir name sb)
count_slots-set dir name [] i s h unused child named = absurd (omega arith)
count_slots-set dir name (x ∷ sb) zero s h unused child named =
    rw (child, named, str_eq_refl name, unused)
count_slots-set dir name (x ∷ sb) (suc i) s h unused child named =
    ground (arith, count_slots-set dir name sb i s)

-- Slot 0 apart, a write elsewhere is a write to the rest of the table.
drop-set : (sb : Superblock) (i : ℕ) (s : Slot) → drop 1 (set sb (suc i) s) ≡ set (drop 1 sb) i s
drop-set [] i s = refl
drop-set (x ∷ sb) i s = refl

index-root : (sb : Superblock) → get_inode_index root_path sb ≡ some 0
unfolding get_inode_index str_eq
index-root sb = refl

readdir_at-dir :
    (name : Str) (i : ℕ) (sb : Superblock)
    → is_directory (inode_at sb i).type ≡ true
    → count name (readdir_at (some i) sb).0
      ≡ count name (dot ∷ dot_dot ∷ []) + count name (child_names (inode_at sb i) (drop 1 sb))
unfolding readdir_at
readdir_at-dir name i sb dir = rw dir (ground arith)

-- `fisopfs_readdir("/")` lists every inode in use that was put in the root, as often as slots hold it.
readdir-root :
    (name : Str) (sb : Superblock)
    → HasRoot sb
    → count name (readdir root_path sb).0
      ≡ count name (dot ∷ dot_dot ∷ []) + count_slots root_path name (drop 1 sb)
unfolding readdir
readdir-root name sb h = ap (λ o. count name (readdir_at o sb).0) (index-root sb) ∙ listed
  where
    child :
        count name (child_names (inode_at sb 0) (drop 1 sb))
        ≡ count_slots root_path name (drop 1 sb)
    child =
        ap (count name) (child_names-eq (inode_at sb 0) (drop 1 sb))
        ∙ ap (λ d. count name (names_in d (drop 1 sb))) (slot_at-IsRoot sb h).path
        ∙ count-names_in root_path name (drop 1 sb)

    listed :
        count name (readdir_at (some 0) sb).0
        ≡ count name (dot ∷ dot_dot ∷ []) + count_slots root_path name (drop 1 sb)
    listed =
        readdir_at-dir name 0 sb (ap is_directory (slot_at-IsRoot sb h).type)
        ∙ ap (λ k. count name (dot ∷ dot_dot ∷ []) + k) child

-- A name without a slash, in the root.
directory_of-root :
    (type : InodeType) (name : Str) → Lacks b'/' name → directory_of type (b'/' ∷ name) ≡ root_path
unfolding directory_of get_parent_path_from_path
directory_of-root regular name h = ground (arith, strrchr-Lacks name b'/' h)
directory_of-root directory name h = refl

pub filename-root_child :
    (name : Str) → Lacks b'/' name → get_filename_from_path (b'/' ∷ name) ≡ some name
unfolding get_filename_from_path strrchr
filename-root_child name h = ground (arith, strrchr-Lacks name b'/' h)

child-fresh :
    (c : Context) (name : Str) (mode : ℕ) (type : InodeType) (name' : Str)
    → Lacks b'/' name
    → is_child root_path
        (record { inode = fresh_inode c (b'/' ∷ name) mode type name'; state = occupied })
      ≡ true
unfolding fresh_inode
child-fresh c name mode type name' lacks =
    rw (directory_of-root type name lacks) (str_eq_refl root_path)

pub path-fresh :
    (c : Context) (path : Str) (mode : ℕ) (type : InodeType) (name : Str)
    → (fresh_inode c path mode type name).path ≡ name
unfolding fresh_inode
path-fresh c path mode type name = refl

count_slots-put :
    (dir name : Str) (sb : Superblock) (i : ℕ) (s : Slot)
    → i ≢ 0
    → i < length sb
    → (slot_at sb i).state ≡ free
    → is_child dir s ≡ true
    → s.inode.path ≡ name
    → count_slots dir name (drop 1 (set sb i s)) ≡ suc (count_slots dir name (drop 1 sb))
count_slots-put dir name sb zero s ne h unused child named = absurd (ne refl)
count_slots-put dir name (x ∷ sb) (suc i) s ne h unused child named =
    count_slots-set dir name sb i s (omega arith) unused child named
count_slots-put dir name [] (suc i) s ne h unused child named = absurd (omega arith)

-- A file or directory that is created in the root is listed there once more than before: when
-- `create` or `mkdir` of "/" and a name without a slash returns 0 on a well-formed superblock,
-- `readdir("/")` gives that name to its caller once more than it did.
pub readdir-create :
    (c : Context) (name : Str) (mode : ℕ) (type : InodeType) (sb : Superblock) {sb' : Superblock}
    → IsValid sb
    → Lacks b'/' name
    → new_inode c (b'/' ∷ name) mode type sb ≡ done tt sb'
    → count name (readdir root_path sb').0 ≡ suc (count name (readdir root_path sb).0)
readdir-create c name mode type sb {sb'} v lacks h =
    let made : Created c (b'/' ∷ name) mode type sb sb' =
      new_inode-Created c (b'/' ∷ name) mode type sb h in
    let same : made.name ≡ name =
      some-injective _ _ (sym made.named ∙ filename-root_child name lacks) in
    readdir-root name sb'
      (subst (Leaves IsValid) h (new_inode-IsValid c (b'/' ∷ name) mode type sb v)).root
    ∙ ap (λ k. count name (dot ∷ dot_dot ∷ []) + k)
        (ap (λ b. count_slots root_path name (drop 1 b)) made.result
          ∙ count_slots-put root_path name sb made.slot _ (Vacant-ne_nil v made.vacant).1
              made.vacant.inside made.vacant.unused (child-fresh c name mode type made.name lacks)
              (path-fresh c (b'/' ∷ name) mode type made.name ∙ same))
    ∙ omega (arith, readdir-root name sb v.root)

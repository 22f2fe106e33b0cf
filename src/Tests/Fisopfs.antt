-- ===== src/Tests/Fisopfs.antt =====
-- The file system on small tables: the root, and one or two files.
use mathlib.Core.Path.{subst}
use sisop_mendez.Base.{List, [], arith, none, refl, set, some, suc, true, ℕ, ◌+◌, ◌∷◌, ◌≡◌, ◌≢◌}
use sisop_mendez.Fs.Behaviour.Image.{Mount}
use sisop_mendez.Fs.Behaviour.Listing.{count, readdir-create}
use sisop_mendez.Fs.Behaviour.Resize.{Resized, truncate_lem}
use sisop_mendez.Fs.Contents.Back.{read-write}
use sisop_mendez.Fs.Contents.Bytes.{IsSealed}
use sisop_mendez.Fs.Disk.{no_file, written}
use sisop_mendez.Fs.Files.{read, truncate, write}
use sisop_mendez.Fs.Handlers.{inode_at, readdir, slot_at, unlink}
use sisop_mendez.Fs.Names.Made.{new_inode-lookup}
use sisop_mendez.Fs.Names.Removed.{Unique, unlink-lookup}
use sisop_mendez.Fs.Paths.{get_filename_from_path, root_path, str_eq, strlen, strrchr}
use sisop_mendez.Fs.Requests.{Request, serve}
use sisop_mendez.Fs.Requests.Invariant.{serve-IsValid}
use sisop_mendez.Fs.Requests.Sealed.{AllSealed}
use sisop_mendez.Fs.Requests.Total.{build_superblock-AllSealed, serve-total}
use sisop_mendez.Fs.Table.{
  build_root_directory, build_superblock, find_inode, fresh_inode, get_inode_index, new_inode,
  new_named, next_free_inode_index, overflows, place_inode, root_inode,
}
use sisop_mendez.Fs.Types.{
  Context, Slot, Str, Superblock, done, free, free_slot, is_regular, occupied, regular,
  zero_content,
}
use sisop_mendez.Fs.Valid.{IsValid, Leaves}
use sisop_mendez.Fs.Valid.New.{build_superblock-IsValid, new_inode-IsValid}

abbrev pub context : Context
context = record { uid = 1000; gid = 1000; time = λ k. 77 + k }

-- The superblock that `build_superblock` makes.
abbrev pub fresh : Superblock
fresh = build_superblock context

abbrev pub a_path : Str
a_path = b'/' ∷ b'a' ∷ []

abbrev pub hello : List ℕ
hello = b'h' ∷ b'i' ∷ []

abbrev pub script : List (Context × Request)
script =
    (context, Request.mkdir (b'/' ∷ b'd' ∷ []) 0o755)
    ∷ (context, Request.write a_path hello 0)
    ∷ (context, Request.rmdir root_path)
    ∷ (context, Request.unlink (b'/' ∷ b'x' ∷ []))
    ∷ (context, Request.flush a_path written)
    ∷ []

serve-total_example :
    (sb' : Superblock) × (serve script fresh ≡ some sb') × IsValid sb' × AllSealed sb'
serve-total_example =
    serve-total script fresh (build_superblock-IsValid context) (build_superblock-AllSealed context)
      (omega arith)

abbrev pub served :
    (sb' : Superblock) × (serve script fresh ≡ some sb') × IsValid sb' × AllSealed sb'
served =
    serve-total script fresh (build_superblock-IsValid context) (build_superblock-AllSealed context)
      (omega arith)

serve-IsValid_example : IsValid served.0
serve-IsValid_example = serve-IsValid script fresh (build_superblock-IsValid context) served.1

abbrev pub a_slot : Slot
a_slot = record { inode = fresh_inode context a_path 0o644 regular (b'a' ∷ []); state = occupied }

-- The table with "/a" in slot 1, as `create` leaves it.
unfoldable pub created : Superblock
unfolding new_inode new_named place_inode build_superblock build_root_directory root_inode
    get_filename_from_path strrchr next_free_inode_index str_eq overflows get_inode_index find_inode
    fresh_inode zero_content strlen
created = set fresh 1 a_slot

create_runs : new_inode context a_path 0o644 regular fresh ≡ done tt created
unfolding created
create_runs = refl

pub created-IsValid : IsValid created
created-IsValid =
    subst (Leaves IsValid) create_runs
      (new_inode-IsValid context a_path 0o644 regular fresh (build_superblock-IsValid context))

pub a_index : get_inode_index a_path created ≡ some 1
unfolding created
a_index = refl

pub a_empty : strlen (inode_at created 1).content ≡ some 0
unfolding created
a_empty = refl

pub a_file : is_regular (inode_at created 1).type ≡ true
unfolding created
a_file = refl

a_size : (inode_at created 1).size ≡ 0
unfolding created
a_size = refl

a-IsSealed : IsSealed (inode_at created 1).content
unfolding created
a-IsSealed = refl

-- Written and read back.
read-write_example :
    (sb' sb'' : Superblock) × (write context a_path hello 0 created ≡ done 2 sb')
    × (read context a_path 2 0 sb' ≡ done hello sb'')
read-write_example =
    read-write context context a_path hello 0 1 0 created created-IsValid a_index a_file a_empty
      (omega arith) (omega arith) a-IsSealed (refl, (refl, tt)) (omega arith)

new_inode-lookup_example :
    (i : ℕ) × (name : Str) × (get_filename_from_path a_path ≡ some name)
    × (get_inode_index a_path created ≡ some i)
    × ((slot_at fresh i).state ≡ free)
    × (slot_at created i
        ≡ record { inode = fresh_inode context a_path 0o644 regular name; state = occupied })
    × ((j : ℕ) → i ≢ j → slot_at created j ≡ slot_at fresh j)
new_inode-lookup_example =
    new_inode-lookup context a_path 0o644 regular fresh (build_superblock-IsValid context)
      create_runs

emptied : Superblock
unfolding created
emptied = set created 1 free_slot

unlink_runs : unlink a_path created ≡ done tt emptied
unfolding emptied unlink
unlink_runs = refl

unlink-lookup_example :
    (i : ℕ) × (get_inode_index a_path created ≡ some i)
    × (slot_at emptied i ≡ free_slot)
    × ((j : ℕ) → i ≢ j → slot_at emptied j ≡ slot_at created j)
    × (Unique created → get_inode_index a_path emptied ≡ none)
unlink-lookup_example = unlink-lookup a_path created created-IsValid unlink_runs

truncate_lem_example :
    (sb' : Superblock) × (truncate context a_path 7 created ≡ done tt sb')
    × ((inode_at sb' 1).size ≡ 7)
    × Resized (inode_at created 1).content 0 7 (inode_at sb' 1).content
truncate_lem_example =
    truncate_lem context a_path 7 1 0 created created-IsValid a_index a_file a_empty (omega arith)

readdir-create_example :
    count (b'a' ∷ []) (readdir root_path created).0
    ≡ suc (count (b'a' ∷ []) (readdir root_path fresh).0)
readdir-create_example =
    readdir-create context (b'a' ∷ []) 0o644 regular fresh (build_superblock-IsValid context)
      (refl, tt) create_runs

abbrev pub two_mounts : List Mount
two_mounts =
    record { context = context; requests = script; outcome = written }
    ∷ record { context = context; requests = script; outcome = no_file }
    ∷ []

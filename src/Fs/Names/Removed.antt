-- ===== src/Fs/Names/Removed.antt =====
-- What a lookup finds once a file has been removed.
use native.Mathlib.Decide.{ℕ_discrete}
use sisop_mendez.Base.{
  Bool-cases, Option-cases, [], ap, arith, get_or-set_ne, get_or-set_self, inl, inr, none, set,
  some, sym, true, ℕ, ◌∙◌, ◌≡◌, ◌≢◌,
}
use sisop_mendez.Fs.Handlers.{inode_at, slot_at, unlink}
use sisop_mendez.Fs.Names.Made.{lookup-find}
use sisop_mendez.Fs.Paths.{get_filename_from_path}
use sisop_mendez.Fs.Table.{find_inode, get_inode_index}
use sisop_mendez.Fs.Types.{Str, Superblock, done, free_slot, is_regular, occupied}
use sisop_mendez.Fs.Valid.{IsValid}
use sisop_mendez.Fs.Valid.Change.{regular-ne_zero}
use sisop_mendez.Fs.Valid.Lookup.{Found, find_inode-Found, get_inode_index-cases, inode_at-IsInode}

-- No two slots in use have the same name.
abbrev pub Unique : Superblock → Type 0
Unique sb =
    (i j : ℕ)
    → (slot_at sb i).state ≡ occupied
    → (slot_at sb j).state ≡ occupied
    → (inode_at sb i).path ≡ (inode_at sb j).path
    → i ≡ j

record Unlinked (path : Str) (sb sb' : Superblock) : Type 0 where
  slot : ℕ
  found : get_inode_index path sb ≡ some slot
  file : is_regular (inode_at sb slot).type ≡ true
  result : sb' ≡ set sb slot free_slot

unlink-Unlinked :
    (path : Str) (sb : Superblock) {sb' : Superblock}
    → unlink path sb ≡ done tt sb'
    → Unlinked path sb sb'
unfolding unlink
unlink-Unlinked path sb h = elim (Option-cases (get_inode_index path sb)) [
  | inl missing ↦ absurd (ground arith)
  | inr (i, found) ↦ elim (Bool-cases (is_regular (inode_at sb i).type)) [
    | inl file ↦ record { slot = i; found = found; file = file; result = ground arith }
    | inr other ↦ absurd (ground arith)
  ]
]

-- A regular file is found by its name.
file-Found :
    {sb : Superblock} (path : Str) (i : ℕ)
    → IsValid sb
    → get_inode_index path sb ≡ some i
    → is_regular (inode_at sb i).type ≡ true
    → (name : Str) × (get_filename_from_path path ≡ some name) × Found name sb i
file-Found {sb} path i v h file = elim (get_inode_index-cases path sb i h) [
  | inl (is_root, e) ↦ absurd (regular-ne_zero i v file e)
  | inr found ↦ found
]

Found-ne_nil : {sb : Superblock} {name : Str} {i : ℕ} → IsValid sb → Found name sb i → name ≢ []
Found-ne_nil {i = i} v f = λ e. (inode_at-IsInode i v f.used).named (f.path ∙ e)

-- With unique names, a name whose slot is freed is found nowhere else.
module _ {sb : Superblock} (name : Str) (i : ℕ) (found : Found name sb i) (unique : Unique sb) where
  find_inode-freed : find_inode name (set sb i free_slot) ≡ none
  find_inode-freed = elim (Option-cases (find_inode name (set sb i free_slot))) [
    | inl missing ↦ missing
    | inr (j, again) ↦ absurd (twice j (find_inode-Found name (set sb i free_slot) j again))
  ]
    where
      same : (j : ℕ) → i ≢ j → slot_at (set sb i free_slot) j ≡ slot_at sb j
      same j ne = get_or-set_ne sb free_slot free_slot ne

      freed : (j : ℕ) → i ≡ j → slot_at (set sb i free_slot) j ≡ free_slot
      freed j e =
          ap (slot_at (set sb i free_slot)) (sym e)
          ∙ get_or-set_self sb i free_slot free_slot found.inside

      twice : (j : ℕ) → Found name (set sb i free_slot) j → ⊥
      twice j f = elim (ℕ_discrete i j) [
        | yes e ↦ cc (freed j e, f.used)
        | no ne ↦ ne (
            unique i j found.used (ap (λ s. s.state) (sym (same j ne)) ∙ f.used)
              (found.path ∙ sym f.path ∙ ap (λ s. s.inode.path) (same j ne)))
      ]

-- When `unlink` returns 0, the slot that the path named is free and zeroed, and all others are as
-- before; if no two inodes had one name, the path is now found no more.
pub unlink-lookup :
    (path : Str) (sb : Superblock) {sb' : Superblock}
    → IsValid sb
    → unlink path sb ≡ done tt sb'
    → (i : ℕ) × (get_inode_index path sb ≡ some i)
      × (slot_at sb' i ≡ free_slot)
      × ((j : ℕ) → i ≢ j → slot_at sb' j ≡ slot_at sb j)
      × (Unique sb → get_inode_index path sb' ≡ none)
unlink-lookup path sb {sb'} v h = (
  slot,
  found,
  ap (λ b. slot_at b slot) result ∙ get_or-set_self sb slot free_slot free_slot file_found.2.inside,
  λ j ne. ap (λ b. slot_at b j) result ∙ get_or-set_ne sb free_slot free_slot ne,
  λ unique.
      ap (get_inode_index path) result
      ∙ lookup-find path file_found.0 (set sb slot free_slot) (Found-ne_nil v file_found.2)
          file_found.1
      ∙ find_inode-freed file_found.0 slot file_found.2 unique,
)
  where
    open unlink-Unlinked path sb h use {slot, found, file, result}

    file_found : (name : Str) × (get_filename_from_path path ≡ some name) × Found name sb slot
    file_found = file-Found path slot v found file

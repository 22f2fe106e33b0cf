-- ===== src/Fs/Names/Made.antt =====
-- What a lookup finds once an inode has been made.
use mathlib.Core.Option.{some-injective}
use sisop_mendez.Base.{
  Bool-cases, Option-cases, [], ap, arith, get_or-set_ne, get_or-set_self, inl, inr, length, ltb,
  none, refl, set, some, suc, sym, zero, ℕ, ◌<◌, ◌∙◌, ◌∷◌, ◌≡◌, ◌≢◌, ◌⊎◌,
}
use sisop_mendez.Fs.Handlers.{slot_at}
use sisop_mendez.Fs.Paths.{get_filename_from_path, root_path, str_eq, strrchr}
use sisop_mendez.Fs.Table.{
  find_inode, fresh_inode, get_inode_index, new_inode, new_named, next_free_inode_index, path_room,
  place_inode,
}
use sisop_mendez.Fs.Types.{
  Context, Errno, InodeType, Slot, Str, Superblock, done, free, free_slot, max_data_size, occupied,
}
use sisop_mendez.Fs.Valid.{IsValid}
use sisop_mendez.Fs.Valid.Lookup.{
  NotNamed, Vacant, Vacant-ne_nil, eq_of_str_eq, next_free-Vacant, str_eq_refl,
}

pub str_eq_comm : (s t : Str) → str_eq s t ≡ str_eq t s
unfolding str_eq
str_eq_comm [] [] = refl
str_eq_comm [] (b ∷ t) = refl
str_eq_comm (a ∷ s) [] = refl
str_eq_comm (a ∷ s) (b ∷ t) = ground (arith, str_eq_comm s t)

-- A new slot with the name, behind slots that do not have it, is what the search finds.
pub find_inode-set :
    (name : Str) (sb : Superblock) (i : ℕ) (s : Slot)
    → i < length sb
    → NotNamed name sb i
    → s.state ≡ occupied
    → s.inode.path ≡ name
    → find_inode name (set sb i s) ≡ some i
unfolding find_inode
find_inode-set name [] i s h fresh used named = absurd (omega arith)
find_inode-set name (x ∷ sb) zero s h fresh used named = rw (used, named, str_eq_refl name)
find_inode-set name (x ∷ sb) (suc i) s h fresh used named =
    ground (arith, str_eq_comm x.inode.path name, find_inode-set name sb i s)

filename-nil : get_filename_from_path [] ≡ none
unfolding get_filename_from_path
filename-nil = refl

pub filename-root : get_filename_from_path root_path ≡ some []
unfolding get_filename_from_path strrchr
filename-root = refl

-- Behind its special cases a lookup is the search for the file name.
pub lookup-find :
    (path name : Str) (sb : Superblock)
    → name ≢ []
    → get_filename_from_path path ≡ some name
    → get_inode_index path sb ≡ find_inode name sb
unfolding get_inode_index
lookup-find [] name sb h e = cc filename-nil
lookup-find (a ∷ s) name sb h e = elim (Bool-cases (str_eq (a ∷ s) root_path)) [
  | inl is_root ↦
      let p = eq_of_str_eq (a ∷ s) root_path is_root in
      absurd (h (some-injective _ _ (sym e ∙ ap get_filename_from_path p ∙ filename-root)))
  | inr other ↦ rw (other, e)
]

-- What a successful `new_inode` has done: the new inode stands in the slot that the search found,
-- all other slots are as before.
pub record Created (c : Context) (path : Str) (mode : ℕ) (type : InodeType) (sb sb' : Superblock)
    : Type 0 where
  pub slot : ℕ
  pub name : Str
  pub named : get_filename_from_path path ≡ some name
  pub vacant : Vacant name sb slot
  pub result :
      sb' ≡ set sb slot (record { inode = fresh_inode c path mode type name; state = occupied })

place-Created :
    (c : Context) (path : Str) (mode : ℕ) (type : InodeType) (name : Str) (r : Errno ⊎ ℕ)
    (sb : Superblock) {sb' : Superblock}
    → get_filename_from_path path ≡ some name
    → next_free_inode_index name sb ≡ r
    → place_inode c path mode type name r sb ≡ done tt sb'
    → Created c path mode type sb sb'
unfolding place_inode
place-Created c path mode type name (inl e) sb n r h = cc
place-Created c path mode type name (inr i) sb n r h = record {
  slot = i;
  name = name;
  named = n;
  vacant = next_free-Vacant name sb i r;
  result = ground arith;
}

pub new_inode-Created :
    (c : Context) (path : Str) (mode : ℕ) (type : InodeType) (sb : Superblock) {sb' : Superblock}
    → new_inode c path mode type sb ≡ done tt sb'
    → Created c path mode type sb sb'
unfolding new_inode new_named
new_inode-Created c path mode type sb h = elim (Bool-cases (ltb max_data_size (path_room path))) [
  | inl long ↦ absurd (ground arith)
  | inr fits ↦ elim (Option-cases (get_filename_from_path path)) [
    | inl missing ↦ absurd (ground arith)
    | inr (name, named) ↦ place-Created c path mode type name _ sb named refl (ground arith)
  ]
]

-- What `create` and `mkdir` promise of a well-formed superblock when they return 0: the path is
-- then looked up in a slot that was free, which holds a fresh inode, empty and named after the
-- path's last part; every other slot is as it was.
pub new_inode-lookup :
    (c : Context) (path : Str) (mode : ℕ) (type : InodeType) (sb : Superblock) {sb' : Superblock}
    → IsValid sb
    → new_inode c path mode type sb ≡ done tt sb'
    → (i : ℕ) × (name : Str) × (get_filename_from_path path ≡ some name)
      × (get_inode_index path sb' ≡ some i)
      × ((slot_at sb i).state ≡ free)
      × (slot_at sb' i ≡ record { inode = fresh_inode c path mode type name; state = occupied })
      × ((j : ℕ) → i ≢ j → slot_at sb' j ≡ slot_at sb j)
new_inode-lookup c path mode type sb {sb'} v h = (
  slot,
  name,
  named,
  found,
  vacant.unused,
  ap (λ b. slot_at b slot) result ∙ get_or-set_self sb slot _ free_slot vacant.inside,
  λ j ne. ap (λ b. slot_at b j) result ∙ get_or-set_ne sb _ free_slot ne,
)
  where
    open new_inode-Created c path mode type sb h use {slot, name, named, vacant, result}

    found : get_inode_index path sb' ≡ some slot
    found =
        lookup-find path name sb' (Vacant-ne_nil v vacant).0 named
        ∙ ap (find_inode name) result
        ∙ find_inode-set name sb slot _ vacant.inside vacant.fresh refl (unfold fresh_inode in refl)

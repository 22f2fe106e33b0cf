-- ===== src/Fs/Requests/Sealed.antt =====
-- Requests that fit the buffers of the C code never run past one.
use sisop_mendez.Base.{
  All, All-get_or, All-set, Bool-cases, List, Option, Option-cases, [], ap, arith, drop, false,
  get_or, inl, inr, length, length-drop, ltb, none, refl, set, some, suc, zero, ℕ, ◌+◌, ◌-◌, ◌<◌,
  ◌∷◌, ◌≡◌, ◌≤◌, ◌⊎◌,
}
use sisop_mendez.Fs.Contents.Bytes.{IsSealed}
use sisop_mendez.Fs.Files.{resize, zero_bytes}
use sisop_mendez.Fs.Handlers.{at_index, inode_at, put_inode}
use sisop_mendez.Fs.Paths.{get_filename_from_path, strrchr}
use sisop_mendez.Fs.Requests.{Request}
use sisop_mendez.Fs.Table.{fresh_inode, new_inode, new_named, overflows, path_room, place_inode}
use sisop_mendez.Fs.Types.{
  Context, Errno, Inode, InodeType, Reply, Slot, Str, Superblock, directory, done, fault, free_slot,
  max_data_size, max_path_length, regular, size_mod, throw, zero_content,
}

-- Every buffer of the table ends in a NUL.
abbrev pub IsSealedSlot : Slot → Type 0
IsSealedSlot s = IsSealed s.inode.content

abbrev pub AllSealed : Superblock → Type 0
AllSealed = All IsSealedSlot

-- The call comes back, and leaves a superblock with `P`.
abbrev pub Returns : (Superblock → Type 0) → {A : Type 0} → Reply A → Type 0
Returns P (done a sb) = P sb
Returns P (throw e sb) = P sb
Returns P fault = ⊥

pub at_index-Returns :
    (P : Superblock → Type 0) {A : Type 0} (o : Option ℕ) (sb : Superblock) (rest : ℕ → Reply A)
    → P sb
    → ((i : ℕ) → o ≡ some i → Returns P (rest i))
    → Returns P (at_index o sb rest)
at_index-Returns P none sb rest h k = h
at_index-Returns P (some i) sb rest h k = k i refl

-- The limits that a request must keep: a path shorter than its buffers, a write that ends before
-- the last byte of the content, and a read whose end does not wrap.
abbrev pub Fits : Request → Type 0
Fits (Request.create path mode) = length path < max_path_length
Fits (Request.mkdir path mode) = length path < max_path_length
Fits (Request.write path bytes offset) =
    (length path < max_path_length) × (offset + length bytes < max_data_size)
Fits (Request.read path size offset) = offset + size < size_mod
Fits r = Unit

pub zero_content-IsSealed : IsSealed zero_content
unfolding zero_content
zero_content-IsSealed = refl

-- A byte that is NUL is so when NULs are written.
zero_at : (s : List ℕ) (i k : ℕ) → get_or s k 1 ≡ 0 → get_or (set s i 0) k 1 ≡ 0
zero_at [] i k h = h
zero_at (a ∷ s) zero zero h = refl
zero_at (a ∷ s) zero (suc k) h = h
zero_at (a ∷ s) (suc i) zero h = h
zero_at (a ∷ s) (suc i) (suc k) h = zero_at s i k h

set_zero-IsSealed : (s : List ℕ) (i : ℕ) → IsSealed s → IsSealed (set s i 0)
set_zero-IsSealed s i h = zero_at s i (max_data_size - 1) h

pub zero_bytes-IsSealed : (n from : ℕ) (s : List ℕ) → IsSealed s → IsSealed (zero_bytes n from s)
unfolding zero_bytes
zero_bytes-IsSealed zero from s h = h
zero_bytes-IsSealed (suc n) from s h =
    zero_bytes-IsSealed n (suc from) (set s from 0) (set_zero-IsSealed s from h)

pub inode_at-IsSealed : (sb : Superblock) (i : ℕ) → AllSealed sb → IsSealed (inode_at sb i).content
inode_at-IsSealed sb i h = All-get_or IsSealedSlot sb i free_slot h zero_content-IsSealed

pub put-AllSealed :
    (sb : Superblock) (i : ℕ) (n : Inode)
    → AllSealed sb
    → IsSealed n.content
    → AllSealed (put_inode sb i n)
put-AllSealed sb i n h k = All-set IsSealedSlot sb i _ h k

-- A name is no longer than the path that it ends.
pub length-filename :
    (path name : Str) → get_filename_from_path path ≡ some name → length name ≤ length path
unfolding get_filename_from_path
length-filename [] name h = cc
length-filename (a ∷ s) name h = elim (Option-cases (strrchr (a ∷ s) b'/')) [
  | inl missing ↦ let e : a ∷ s ≡ name = ground arith in omega (arith, ap length e)
  | inr (i, last) ↦
      let e : drop (suc i) (a ∷ s) ≡ name = ground arith in
      omega (arith, ap length e, length-drop i s)
]

pub fits-overflows :
    (type : InodeType) (path name : Str)
    → 0 < length path
    → length path < max_path_length
    → length name ≤ length path
    → overflows type path name ≡ false
unfolding overflows
fits-overflows regular path name pos h k = ground arith
fits-overflows directory path name pos h k = ground arith

pub resize-IsSealed : (s : List ℕ) (size len : ℕ) → IsSealed s → IsSealed (resize s size len)
unfolding resize
resize-IsSealed s size len h = elim (Bool-cases (ltb size len)) [
  | inl cut ↦ rw cut (
      set_zero-IsSealed _ size
        (zero_bytes-IsSealed (size - len) len _ (zero_bytes-IsSealed (len - size) size s h)))
  | inr grown ↦
      rw grown (zero_bytes-IsSealed (size - len) len _ (zero_bytes-IsSealed (len - len) len s h))
]

place-Returns :
    (c : Context) (path : Str) (mode : ℕ) (type : InodeType) (name : Str) (r : Errno ⊎ ℕ)
    (sb : Superblock)
    → AllSealed sb
    → overflows type path name ≡ false
    → Returns AllSealed (place_inode c path mode type name r sb)
unfolding place_inode fresh_inode
place-Returns c path mode type name (inl e) sb h fits = h
place-Returns c path mode type name (inr i) sb h fits =
    rw fits (All-set IsSealedSlot sb i _ h zero_content-IsSealed)

pub length-pos : (path name : Str) → get_filename_from_path path ≡ some name → 0 < length path
unfolding get_filename_from_path
length-pos [] name h = cc
length-pos (a ∷ s) name h = omega arith

named-Returns :
    (c : Context) (path : Str) (mode : ℕ) (type : InodeType) (o : Option Str) (sb : Superblock)
    → AllSealed sb
    → length path < max_path_length
    → get_filename_from_path path ≡ o
    → Returns AllSealed (new_named c path mode type o sb)
unfolding new_named
named-Returns c path mode type none sb h fits e = h
named-Returns c path mode type (some name) sb h fits e =
    place-Returns c path mode type name _ sb h
      (fits-overflows type path name (length-pos path name e) fits (length-filename path name e))

-- `new_inode` on a path shorter than its buffers comes back.
pub new_inode-Returns :
    (c : Context) (path : Str) (mode : ℕ) (type : InodeType) (sb : Superblock)
    → AllSealed sb
    → length path < max_path_length
    → Returns AllSealed (new_inode c path mode type sb)
unfolding new_inode
new_inode-Returns c path mode type sb h fits =
    elim (Bool-cases (ltb max_data_size (path_room path))) [
      | inl long ↦ rw long h
      | inr short_enough ↦ rw short_enough (named-Returns c path mode type _ sb h fits refl)
    ]

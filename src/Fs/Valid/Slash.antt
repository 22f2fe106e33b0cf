-- ===== src/Fs/Valid/Slash.antt =====
-- The file name of a path has no slash, so a lookup by name never finds the root.
use mathlib.Core.Path.{subst}
use sisop_mendez.Base.{
  Lacks, Option-cases, [], arith, drop, inl, inr, none, refl, some, suc, sym, zero, ℕ, ◌∙◌, ◌∷◌,
  ◌≡◌,
}
use sisop_mendez.Fs.Paths.{get_filename_from_path, root_path, strrchr}
use sisop_mendez.Fs.Table.{get_inode_index}
use sisop_mendez.Fs.Types.{Str, Superblock}
use sisop_mendez.Fs.Valid.{IsValid}
use sisop_mendez.Fs.Valid.Lookup.{get_inode_index-cases, slot_at-IsRoot}

-- No byte of the string is `c`.
strrchr-none-Lacks : (s : Str) (c : ℕ) → strrchr s c ≡ none → Lacks c s
unfolding strrchr
strrchr-none-Lacks [] c h = tt
strrchr-none-Lacks (a ∷ s) c h = ground (arith, strrchr-none-Lacks s c)

strrchr-drop-Lacks : (s : Str) (c i : ℕ) → strrchr s c ≡ some i → Lacks c (drop (suc i) s)
unfolding strrchr
strrchr-drop-Lacks [] c i h = tt
strrchr-drop-Lacks (a ∷ s) c zero h = ground (arith, strrchr-none-Lacks s c)
strrchr-drop-Lacks (a ∷ s) c (suc i) h = ground (arith, strrchr-drop-Lacks s c i)

pub filename-Lacks : (path name : Str) → get_filename_from_path path ≡ some name → Lacks b'/' name
unfolding get_filename_from_path
filename-Lacks [] name h = cc
filename-Lacks (a ∷ s) name h = elim (Option-cases (strrchr (a ∷ s) b'/')) [
  | inl missing ↦ subst (Lacks b'/') (whole missing) (strrchr-none-Lacks (a ∷ s) b'/' missing)
  | inr (i, last) ↦ subst (Lacks b'/') (tail i last) (strrchr-drop-Lacks (a ∷ s) b'/' i last)
]
  where
    whole : strrchr (a ∷ s) b'/' ≡ none → a ∷ s ≡ name
    whole e = ground arith

    tail : (i : ℕ) → strrchr (a ∷ s) b'/' ≡ some i → drop (suc i) (a ∷ s) ≡ name
    tail i e = ground arith

-- A lookup that ends in slot 0 of a well-formed table was one of the path "/".
pub index_zero :
    {sb : Superblock} (path : Str)
    → IsValid sb
    → get_inode_index path sb ≡ some 0
    → path ≡ root_path
index_zero {sb} path v h = elim (get_inode_index-cases path sb 0 h) [
  | inl (is_root, e) ↦ is_root
  | inr (name, e, found) ↦
      let same : root_path ≡ name = sym (slot_at-IsRoot sb v.root).path ∙ found.path in
      cc (subst (Lacks b'/') (sym same) (filename-Lacks path name e)).0
]

pub strrchr-Lacks : (s : Str) (c : ℕ) → Lacks c s → strrchr s c ≡ none
unfolding strrchr
strrchr-Lacks [] c h = refl
strrchr-Lacks (a ∷ s) c h = ground (arith, h.0, strrchr-Lacks s c h.1)

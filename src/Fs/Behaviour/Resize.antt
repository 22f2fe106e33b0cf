-- ===== src/Fs/Behaviour/Resize.antt =====
-- `fisopfs_truncate`: the bytes and the size that it leaves.
use mathlib.Core.Option.{some-injective}
use mathlib.Core.Path.{subst}
use sisop_mendez.Base.{
  Bool-cases, List, [], ap, arith, get_or, if◌then◌else◌, inl, inr, leb, length, ltb, refl, set,
  some, suc, sym, true, zero, ℕ, ◌&&◌, ◌+◌, ◌-◌, ◌<◌, ◌==◌, ◌↔◌, ◌∷◌, ◌≡◌, ◌≤◌,
}
use sisop_mendez.Fs.Contents.Access.{index-lt, inode_at-put}
use sisop_mendez.Fs.Files.{resize, store_resized, truncate, truncate_content, zero_bytes}
use sisop_mendez.Fs.Handlers.{inode_at, put_inode}
use sisop_mendez.Fs.Paths.{strlen}
use sisop_mendez.Fs.Table.{get_inode_index}
use sisop_mendez.Fs.Types.{Context, Inode, Str, Superblock, done, is_regular, max_data_size}
use sisop_mendez.Fs.Valid.{IsValid}
use sisop_mendez.Fs.Valid.Change.{found-IsInode}
use sisop_mendez.Fs.Valid.Content.{length-resize, length-zero_bytes, strlen-lt}

get_or-set_zero :
    (s : List ℕ) (i k : ℕ) → get_or (set s i 0) k 0 ≡ (if i == k then 0 else get_or s k 0)
get_or-set_zero [] i k = ground arith
get_or-set_zero (a ∷ s) zero zero = refl
get_or-set_zero (a ∷ s) zero (suc k) = ground arith
get_or-set_zero (a ∷ s) (suc i) zero = ground arith
get_or-set_zero (a ∷ s) (suc i) (suc k) = ground (arith, get_or-set_zero s i k)

-- The loop writes NULs at `from`, ..., `from + n - 1` and nothing else.
pub get_or-zero_bytes :
    (n from : ℕ) (s : List ℕ) (k : ℕ)
    → get_or (zero_bytes n from s) k 0
      ≡ (if leb from k && ltb k (from + n) then 0 else get_or s k 0)
unfolding zero_bytes
get_or-zero_bytes zero from s k = ground arith
get_or-zero_bytes (suc n) from s k =
    ground (arith, get_or-zero_bytes n (suc from) (set s from 0) k, get_or-set_zero s from k)

-- `strlen` says where the first NUL stands.
strlen-bytes :
    (s : List ℕ) (len k : ℕ) → strlen s ≡ some len → k ≤ len → (get_or s k 0 ≡ 0) ↔ (k ≡ len)
unfolding strlen
strlen-bytes [] len k h le = cc
strlen-bytes (zero ∷ s) len k h le = ground arith
strlen-bytes (suc a ∷ s) zero k h le = ground arith
strlen-bytes (suc a ∷ s) (suc len) zero h le = ground arith
strlen-bytes (suc a ∷ s) (suc len) (suc k) h le = ground (arith, strlen-bytes s len k)

strlen_of :
    (s : List ℕ) (len : ℕ)
    → len < length s
    → ((k : ℕ) → k ≤ len → (get_or s k 0 ≡ 0) ↔ (k ≡ len))
    → strlen s ≡ some len
unfolding strlen
strlen_of [] len h f = absurd (omega arith)
strlen_of (zero ∷ s) len h f = ap some ((f 0 (omega arith)).0 refl)
strlen_of (suc a ∷ s) zero h f = absurd (omega (arith, (f 0 (omega arith)).1 refl))
strlen_of (suc a ∷ s) (suc len) h f = rw (
    strlen_of s len (omega arith) (λ k le. (
      λ e. omega (arith, (f (suc k) (omega arith)).0 e),
      λ e. (f (suc k) (omega arith)).1 (ap suc e),
    )))

-- The bytes that the loops of `fisopfs_truncate` leave in a string of length `len`.
get_or-resize :
    (s : List ℕ) (size len k : ℕ)
    → strlen s ≡ some len
    → get_or (resize s size (suc len)) k 0 ≡ (
        if ltb k size
        then (if ltb k len then get_or s k 0 else 0)
        else if leb k len
        then 0
        else get_or s k 0)
unfolding resize
get_or-resize s size len k ends = elim (Bool-cases (ltb size (suc len))) [
  | inl cut ↦
      let inner = zero_bytes (suc len - size) size s in
      let outer = zero_bytes (size - suc len) (suc len) inner in
      rw cut (
        ground (
          arith,
          cut,
          get_or-set_zero outer size k,
          get_or-zero_bytes (size - suc len) (suc len) inner k,
          get_or-zero_bytes (suc len - size) size s k,
        ))
  | inr grown ↦
      let inner = zero_bytes (suc len - suc len) (suc len) s in
      rw grown (
        ground (
          arith,
          grown,
          get_or-zero_bytes (size - suc len) (suc len) inner k,
          get_or-zero_bytes (suc len - suc len) (suc len) s k,
          (strlen-bytes s len len ends le_refl_lem).1 refl,
        ))
]
  where
    le_refl_lem : len ≤ len
    le_refl_lem = omega arith

-- A file of size `size` whose old string had the length `len`: the bytes of the string up to the
-- smaller of the two, then NULs up to `size`; if the string is cut, it ends at `size`.
pub record Resized (s : List ℕ) (len size : ℕ) (t : List ℕ) : Type 0 where
  pub kept : (k : ℕ) → k < size → get_or t k 0 ≡ (if ltb k len then get_or s k 0 else 0)
  pub cut : size ≤ len → strlen t ≡ some size

pub truncate_content-Resized :
    (s : List ℕ) (len size : ℕ) {t : List ℕ}
    → length s ≡ max_data_size
    → strlen s ≡ some len
    → truncate_content s size ≡ some t
    → Resized s len size t
unfolding truncate_content
truncate_content-Resized s len zero {t} sized ends h =
    subst (Resized s len 0) (some-injective _ _ h) (record {
      kept = λ k lt. absurd (omega arith);
      cut = λ le.
          strlen_of _ 0 (omega (arith, length-zero_bytes max_data_size 0 s, sized))
            λ k le'. (λ z. omega arith, λ e. ground (arith, get_or-zero_bytes max_data_size 0 s k));
    })
truncate_content-Resized s len (suc n) {t} sized ends h =
    subst (Resized s len (suc n)) same (record {
      kept = λ k lt. ground (arith, get_or-resize s (suc n) len k ends);
      cut = λ le.
          strlen_of _ (suc n)
            (omega (arith, length-resize s (suc n) (suc len), strlen-lt s len ends))
            λ k le'. (
              λ z. ground (arith, get_or-resize s (suc n) len k ends, strlen-bytes s len k ends),
              λ e. ground (arith, get_or-resize s (suc n) len k ends),
            );
    })
  where
    same : resize s (suc n) (suc len) ≡ t
    same = ground (arith, ends)

truncate_content-some :
    (s : List ℕ) (len size : ℕ)
    → strlen s ≡ some len
    → (t : List ℕ) × (truncate_content s size ≡ some t)
unfolding truncate_content
truncate_content-some s len zero ends = (_, refl)
truncate_content-some s len (suc n) ends = (resize s (suc n) (suc len), rw ends)

-- `truncate` of a regular file to at most the size of the buffer returns 0. The inode then has that
-- size; its bytes below it are those of the old string, followed by NULs; and where the string was
-- not shorter than the new size, it is cut there.
pub truncate_lem :
    (c : Context) (path : Str) (size i len : ℕ) (sb : Superblock)
    → IsValid sb
    → get_inode_index path sb ≡ some i
    → is_regular (inode_at sb i).type ≡ true
    → strlen (inode_at sb i).content ≡ some len
    → size ≤ max_data_size
    → (sb' : Superblock) × (truncate c path size sb ≡ done tt sb')
      × ((inode_at sb' i).size ≡ size)
      × Resized (inode_at sb i).content len size (inode_at sb' i).content
truncate_lem c path size i len sb v found file ends fits =
    let (t, resized) = truncate_content-some (inode_at sb i).content len size ends in
    let n : Inode = record (inode_at sb i) {
      content = t;
      size = size;
      last_modification = c.time 0;
    } in
    let at : inode_at (put_inode sb i n) i ≡ n = inode_at-put sb i n (index-lt path i v found) in
    (
      put_inode sb i n,
      unfold truncate store_resized in ground (arith, found, file, resized),
      ap (λ m. m.size) at,
      subst (Resized (inode_at sb i).content len size) (sym (ap (λ m. m.content) at))
          (truncate_content-Resized _ len size (found-IsInode path i v found).sized ends resized),
    )

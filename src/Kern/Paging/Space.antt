-- ===== src/Kern/Paging/Space.antt =====
-- An address space, seen through its page directory: a word for each virtual page.
use sisop_mendez.Base.{
  Bool, Nat-cases, ap, arith, if◌then◌else◌, inl, inr, not, refl, sym, true, ℕ, ◌%◌, ◌&&◌, ◌*◌, ◌+◌,
  ◌/◌, ◌<◌, ◌==◌, ◌↔◌, ◌∙◌, ◌≡◌, ◌≢◌, ◌≤◌,
}
use sisop_mendez.Kern.Pages.{pgnum, write_word, zero_frame}
use sisop_mendez.Kern.Paging.Counts.{count, count_change, count_none, count_zero, one_if}

-- Entries of the directory below UTOP, and pages; what is above is the same in every address space.
abbrev pub user_tables : ℕ
user_tables = 955

abbrev pub vpages : ℕ
vpages = 955 * 1024

-- The entry of the page `v`, 0 if there is none.
unfoldable pub entry : (ℕ → ℕ → ℕ) → ℕ → ℕ → ℕ
entry frames g v =
    if frames g (v / 1024) == 0 then 0 else frames (pgnum (frames g (v / 1024))) (v % 1024)

-- The page table behind entry `i` of the directory.
abbrev pub table : (ℕ → ℕ → ℕ) → ℕ → ℕ → ℕ
table frames g i = pgnum (frames g i)

-- Whether the page `v` is mapped to the physical page `x`.
unfoldable pub maps : (ℕ → ℕ → ℕ) → ℕ → ℕ → ℕ → Bool
maps frames g x v = not (entry frames g v == 0) && pgnum (entry frames g v) == x

unfoldable pub mappings : (ℕ → ℕ → ℕ) → ℕ → ℕ → ℕ
mappings frames g x = count (maps frames g x) vpages

-- The tables below UTOP are pages of their own.
pub record IsTree (frames : ℕ → ℕ → ℕ) (g : ℕ) : Type 0 where
  pub not_root : (i : ℕ) → i < user_tables → frames g i ≢ 0 → table frames g i ≢ g
  pub apart :
      (i j : ℕ)
      → i < user_tables
      → j < user_tables
      → frames g i ≢ 0
      → frames g j ≢ 0
      → table frames g i ≡ table frames g j
      → i ≡ j

-- A write of one word of a page table changes one entry.
pub entry-write :
    (frames : ℕ → ℕ → ℕ) (g i j w v : ℕ)
    → IsTree frames g
    → i < user_tables
    → frames g i ≢ 0
    → j < 1024
    → v < vpages
    → entry (write_word frames (table frames g i) j w) g v
      ≡ (if v == i * 1024 + j then w else entry frames g v)
unfolding entry write_word
entry-write frames g i j w v tree hi used hj hv =
    let root = tree.not_root i hi used in
    let apart = tree.apart i (v / 1024) hi (omega arith) used in
    let split : (v ≡ i * 1024 + j) ↔ ((i ≡ v / 1024) × (j ≡ v % 1024)) =
      (λ e. omega arith, λ e. omega arith) in
    ground (arith, split.0, split.1)

-- A new page table, which is empty, changes none.
pub entry-put_table :
    (frames : ℕ → ℕ → ℕ) (g i page v : ℕ)
    → IsTree frames g
    → i < user_tables
    → frames g i ≡ 0
    → page ≢ g
    → ((k : ℕ) → k < user_tables → frames g k ≢ 0 → table frames g k ≢ page)
    → v < vpages
    → entry (write_word (zero_frame frames page) g i (page * 4096 + 7)) g v ≡ entry frames g v
unfolding entry write_word zero_frame
entry-put_table frames g i page v tree hi empty ne fresh hv =
    ground (arith, fresh (v / 1024), tree.not_root (v / 1024))

pub IsTree-write :
    (frames : ℕ → ℕ → ℕ) (g t j w : ℕ)
    → IsTree frames g
    → t ≢ g
    → IsTree (write_word frames t j w) g
unfolding write_word
IsTree-write frames g t j w tree ne = record {
  not_root = λ i h. ground (arith, tree.not_root i h);
  apart = λ i k h h'. ground (arith, tree.apart i k h h');
}

pub IsTree-put_table :
    (frames : ℕ → ℕ → ℕ) (g i page : ℕ)
    → IsTree frames g
    → page ≢ g
    → ((k : ℕ) → k < user_tables → frames g k ≢ 0 → table frames g k ≢ page)
    → IsTree (write_word (zero_frame frames page) g i (page * 4096 + 7)) g
unfolding write_word zero_frame
IsTree-put_table frames g i page tree ne fresh = record {
  not_root = λ k h. ground (arith, tree.not_root k h);
  apart = λ k m h h'. ground (arith, tree.apart k m h h', fresh k h, fresh m h');
}

-- How a write changes the mappings of a page.
pub mappings-write :
    (frames : ℕ → ℕ → ℕ) (g i j w x : ℕ)
    → IsTree frames g
    → i < user_tables
    → frames g i ≢ 0
    → j < 1024
    → mappings frames g x + one_if (not (w == 0) && pgnum w == x)
      ≡ mappings (write_word frames (table frames g i) j w) g x
        + one_if (maps frames g x (i * 1024 + j))
unfolding mappings maps
mappings-write frames g i j w x tree hi used hj =
    let v : ℕ = i * 1024 + j in
    let frames' = write_word frames (table frames g i) j w in
    let at_v : maps frames' g x v ≡ (not (w == 0) && pgnum w == x) =
      ground (arith, entry-write frames g i j w v tree hi used hj (omega arith)) in
    let change =
      count_change (maps frames g x) (maps frames' g x) vpages v (omega arith)
        (λ u h ne. ground (arith, entry-write frames g i j w u tree hi used hj h)) in
    ap (λ b. mappings frames g x + one_if b) (sym at_v) ∙ change

-- A page that an entry maps has a mapping.
pub mappings-pos :
    (frames : ℕ → ℕ → ℕ) (g x v : ℕ)
    → v < vpages
    → maps frames g x v ≡ true
    → 1 ≤ mappings frames g x
unfolding mappings
mappings-pos frames g x v h hit = elim (Nat-cases 0 (count (maps frames g x) vpages)) [
  | inl more ↦ more
  | inr zero' ↦ cc (count_zero (maps frames g x) vpages v (omega arith) h, hit)
]

-- An address space without entries maps no page.
pub mappings_none :
    (frames : ℕ → ℕ → ℕ) (g x : ℕ)
    → ((v : ℕ) → v < vpages → entry frames g v ≡ 0)
    → mappings frames g x ≡ 0
unfolding mappings maps
mappings_none frames g x none' = count_none (maps frames g x) vpages (λ v h. rw (none' v h) refl)

-- Where the directory has no table, no page is mapped.
pub entry-blank : (frames : ℕ → ℕ → ℕ) (g v : ℕ) → frames g (v / 1024) ≡ 0 → entry frames g v ≡ 0
unfolding entry
entry-blank frames g v h = rw h refl

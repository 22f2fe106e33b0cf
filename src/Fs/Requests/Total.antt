-- ===== src/Fs/Requests/Total.antt =====
-- Requests that keep the limits come back: no handler runs past a buffer.
use sisop_mendez.Fs.Handlers
use sisop_mendez.Base.{
  All, All-replicate, All-set, Bool-cases, List, Option, [], inl, inr, none, refl, replicate, some,
  ℕ, ◌∙◌, ◌∷◌, ◌≡◌,
}
use sisop_mendez.Fs.Handlers.{inode_at, readdir_at}
use sisop_mendez.Fs.Requests.{Request, forget, go_on, handle, serve}
use sisop_mendez.Fs.Requests.Content.{read-Returns, truncate-Returns, write-Returns}
use sisop_mendez.Fs.Requests.Invariant.{handle-IsValid}
use sisop_mendez.Fs.Requests.Sealed.{
  AllSealed, Fits, IsSealedSlot, Returns, at_index-Returns, new_inode-Returns,
  zero_content-IsSealed,
}
use sisop_mendez.Fs.Requests.Table.{rmdir-Returns, unlink-Returns, utimens-Returns}
use sisop_mendez.Fs.Table.{build_root_directory, build_superblock, get_inode_index, root_inode}
use sisop_mendez.Fs.Types.{
  Context, Reply, Slot, Superblock, directory, done, fault, free_slot, is_directory, max_inodes,
  occupied, regular, throw,
}
use sisop_mendez.Fs.Valid.{IsValid, Leaves}

forget-Returns :
    (P : Superblock → Type 0) {A : Type 0} (r : Reply A) → Returns P r → Returns P (forget r)
forget-Returns P (done a sb) h = h
forget-Returns P (throw e sb) h = h
forget-Returns P fault h = h

readdir_at-Returns :
    (o : Option ℕ) (sb : Superblock) → AllSealed sb → Returns AllSealed (readdir_at o sb).1
unfolding readdir_at
readdir_at-Returns none sb h = h
readdir_at-Returns (some i) sb h = elim (Bool-cases (is_directory (inode_at sb i).type)) [
  | inl dir ↦ rw dir h
  | inr file ↦ rw file h
]

handle-Returns :
    (c : Context) (r : Request) (sb : Superblock)
    → IsValid sb
    → AllSealed sb
    → Fits r
    → Returns AllSealed (handle c r sb)
unfolding handle Handlers.getattr Handlers.readdir Handlers.create Handlers.mkdir
handle-Returns c (Request.getattr path) sb v h f =
    forget-Returns AllSealed _
      (at_index-Returns AllSealed (get_inode_index path sb) sb _ h (λ i found. h))
handle-Returns c (Request.readdir path) sb v h f = readdir_at-Returns (get_inode_index path sb) sb h
handle-Returns c (Request.read path size offset) sb v h f =
    forget-Returns AllSealed _ (read-Returns c path size offset sb v h f)
handle-Returns c (Request.create path mode) sb v h f = new_inode-Returns c path mode regular sb h f
handle-Returns c (Request.mkdir path mode) sb v h f = new_inode-Returns c path mode directory sb h f
handle-Returns c (Request.rmdir path) sb v h f = rmdir-Returns path sb h
handle-Returns c (Request.unlink path) sb v h f = unlink-Returns path sb h
handle-Returns c (Request.write path bytes offset) sb v h f =
    forget-Returns AllSealed _ (write-Returns c path bytes offset sb v h f.0 f.1)
handle-Returns c (Request.utimens path access modification) sb v h f =
    utimens-Returns path access modification sb h
handle-Returns c (Request.truncate path size) sb v h f = truncate-Returns c path size sb v h
handle-Returns c (Request.flush path outcome) sb v h f = h

go_on-Returns :
    (r : Reply Unit) (rest : Superblock → Option Superblock)
    → Leaves IsValid r
    → Returns AllSealed r
    → (t : Superblock) × IsValid t × AllSealed t × (go_on r rest ≡ rest t)
go_on-Returns (done u t) rest v h = (t, v, h, refl)
go_on-Returns (throw e t) rest v h = (t, v, h, refl)
go_on-Returns fault rest v h = absurd h

-- Any list of requests that keep the limits is served to its end, from any well-formed superblock
-- whose buffers end in a NUL: no handler faults, and the superblock is again such a one.
pub serve-total :
    (rs : List (Context × Request)) (sb : Superblock)
    → IsValid sb
    → AllSealed sb
    → All (λ p. Fits p.1) rs
    → (sb' : Superblock) × (serve rs sb ≡ some sb') × IsValid sb' × AllSealed sb'
unfolding serve
serve-total [] sb v h f = (sb, refl, v, h)
serve-total ((c, r) ∷ rest) sb v h f =
    let (t, v', h', e) =
      go_on-Returns (handle c r sb) (serve rest) (handle-IsValid c r sb v)
        (handle-Returns c r sb v h f.0) in
    let (sb', done', v'', h'') = serve-total rest t v' h' f.1 in (sb', e ∙ done', v'', h'')

-- A fresh superblock is such a one.
pub build_superblock-AllSealed : (c : Context) → AllSealed (build_superblock c)
unfolding build_superblock build_root_directory root_inode
build_superblock-AllSealed c =
    All-set IsSealedSlot (replicate max_inodes free_slot) 0 root
      (All-replicate IsSealedSlot max_inodes free_slot zero_content-IsSealed) zero_content-IsSealed
  where
    root : Slot
    root = record { inode = root_inode c; state = occupied }

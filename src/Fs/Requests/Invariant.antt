-- ===== src/Fs/Requests/Invariant.antt =====
-- Every request keeps the superblock well-formed.
use sisop_mendez.Fs.Handlers
use mathlib.Core.Option.{some-injective}
use mathlib.Core.Path.{subst}
use sisop_mendez.Base.{Bool-cases, List, Option, [], inl, inr, none, some, ℕ, ◌∷◌, ◌≡◌}
use sisop_mendez.Fs.Handlers.{inode_at, readdir_at}
use sisop_mendez.Fs.Requests.{Request, forget, go_on, handle, serve}
use sisop_mendez.Fs.Table.{get_inode_index}
use sisop_mendez.Fs.Types.{
  Context, Reply, Str, Superblock, directory, done, fault, is_directory, regular, throw,
}
use sisop_mendez.Fs.Valid.{IsValid, Leaves}
use sisop_mendez.Fs.Valid.Change.{at_index-Leaves, rmdir-IsValid, unlink-IsValid, utimens-IsValid}
use sisop_mendez.Fs.Valid.Files.{read-IsValid, truncate-IsValid, write-IsValid}
use sisop_mendez.Fs.Valid.New.{new_inode-IsValid}

pub forget-Leaves :
    (P : Superblock → Type 0) {A : Type 0} (r : Reply A) → Leaves P r → Leaves P (forget r)
forget-Leaves P (done a sb) h = h
forget-Leaves P (throw e sb) h = h
forget-Leaves P fault h = h

getattr-Leaves :
    (path : Str) (sb : Superblock) → IsValid sb → Leaves IsValid (Handlers.getattr path sb)
unfolding Handlers.getattr
getattr-Leaves path sb v = at_index-Leaves IsValid (get_inode_index path sb) sb _ v λ i found. v

readdir_at-Leaves :
    (P : Superblock → Type 0) (o : Option ℕ) (sb : Superblock) → P sb → Leaves P (readdir_at o sb).1
unfolding readdir_at
readdir_at-Leaves P none sb v = v
readdir_at-Leaves P (some i) sb v = elim (Bool-cases (is_directory (inode_at sb i).type)) [
  | inl dir ↦ rw dir v
  | inr file ↦ rw file v
]

-- Whatever a request answers, it leaves a well-formed superblock well-formed.
pub handle-IsValid :
    (c : Context) (r : Request) (sb : Superblock) → IsValid sb → Leaves IsValid (handle c r sb)
unfolding handle Handlers.readdir Handlers.create Handlers.mkdir
handle-IsValid c (Request.getattr path) sb v = forget-Leaves IsValid _ (getattr-Leaves path sb v)
handle-IsValid c (Request.readdir path) sb v =
    readdir_at-Leaves IsValid (get_inode_index path sb) sb v
handle-IsValid c (Request.read path size offset) sb v =
    forget-Leaves IsValid _ (read-IsValid c path size offset sb v)
handle-IsValid c (Request.create path mode) sb v = new_inode-IsValid c path mode regular sb v
handle-IsValid c (Request.mkdir path mode) sb v = new_inode-IsValid c path mode directory sb v
handle-IsValid c (Request.rmdir path) sb v = rmdir-IsValid path sb v
handle-IsValid c (Request.unlink path) sb v = unlink-IsValid path sb v
handle-IsValid c (Request.write path bytes offset) sb v =
    forget-Leaves IsValid _ (write-IsValid c path bytes offset sb v)
handle-IsValid c (Request.utimens path access modification) sb v =
    utimens-IsValid path access modification sb v
handle-IsValid c (Request.truncate path size) sb v = truncate-IsValid c path size sb v
handle-IsValid c (Request.flush path outcome) sb v = v

go_on-some :
    (P : Superblock → Type 0) (r : Reply Unit) (rest : Superblock → Option Superblock)
    {sb : Superblock}
    → Leaves P r
    → go_on r rest ≡ some sb
    → (t : Superblock) × P t × (rest t ≡ some sb)
go_on-some P (done u t) rest h e = (t, h, e)
go_on-some P (throw x t) rest h e = (t, h, e)
go_on-some P fault rest h e = cc

-- A list of requests that is served to its end, so that no handler runs past a buffer, leaves a
-- well-formed superblock well-formed, also where requests fail with an error: the table keeps
-- its length, free slots stay zeroed, inodes in use stay named, terminated and within their
-- bounds, and the root directory stays in slot 0.
pub serve-IsValid :
    (rs : List (Context × Request)) (sb : Superblock) {sb' : Superblock}
    → IsValid sb
    → serve rs sb ≡ some sb'
    → IsValid sb'
unfolding serve
serve-IsValid [] sb v h = subst IsValid (some-injective _ _ h) v
serve-IsValid ((c, r) ∷ rest) sb v h =
    let (t, kept, e) =
      go_on-some IsValid (handle c r sb) (serve rest) (handle-IsValid c r sb v) h in
    serve-IsValid rest t kept e

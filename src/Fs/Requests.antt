-- ===== src/Fs/Requests.antt =====
-- The `operations` table of fisopfs.c: a request is handed to its handler, one after another.
pub mod Invariant
pub mod Sealed
pub mod Table
pub mod Content
pub mod Total
use sisop_mendez.Fs.Disk
use sisop_mendez.Fs.Handlers
use sisop_mendez.Fs.Files
use sisop_mendez.Fs.Disk.{DiskFile, Outcome}
use sisop_mendez.Base.{List, Option, [], none, some, ℕ, ◌∷◌}
use sisop_mendez.Fs.Types.{Context, Reply, Str, Superblock, done, fault, throw}

-- A flush, which each close makes, has how the C library answers it.
pub data Request : Type 0 where
  getattr : Str → Request
  readdir : Str → Request
  read : Str → ℕ → ℕ → Request
  create : Str → ℕ → Request
  mkdir : Str → ℕ → Request
  rmdir : Str → Request
  unlink : Str → Request
  write : Str → List ℕ → ℕ → Request
  utimens : Str → ℕ → ℕ → Request
  truncate : Str → ℕ → Request
  flush : Str → Outcome → Request

-- A reply without its result.
abbrev pub forget : {A : Type 0} → Reply A → Reply Unit
forget (done a sb) = done tt sb
forget (throw e sb) = throw e sb
forget fault = fault

unfoldable pub handle : Context → Request → Superblock → Reply Unit
handle c (getattr path) sb = forget (Handlers.getattr path sb)
handle c (readdir path) sb = (Handlers.readdir path sb).1
handle c (read path size offset) sb = forget (Files.read c path size offset sb)
handle c (create path mode) sb = Handlers.create c path mode sb
handle c (mkdir path mode) sb = Handlers.mkdir c path mode sb
handle c (rmdir path) sb = Handlers.rmdir path sb
handle c (unlink path) sb = Handlers.unlink path sb
handle c (write path bytes offset) sb = forget (Files.write c path bytes offset sb)
handle c (utimens path access modification) sb = Handlers.utimens path access modification sb
handle c (truncate path size) sb = Files.truncate c path size sb
handle c (flush path outcome) sb = done tt sb

-- An error of one request does not stop the others, a fault does.
abbrev pub go_on : Reply Unit → (Superblock → Option Superblock) → Option Superblock
go_on (done u sb) rest = rest sb
go_on (throw e sb) rest = rest sb
go_on fault rest = none

-- The superblock behind a list of requests, each in its context.
unfoldable pub serve : List (Context × Request) → Superblock → Option Superblock
serve [] sb = some sb
serve ((c, r) ∷ rest) sb = go_on (handle c r sb) (serve rest)

-- The file behind a request: only a flush writes it.
unfoldable pub file_after : Request → Superblock → DiskFile → DiskFile
file_after (flush path outcome) sb file = Disk.flush outcome sb file
file_after r sb file = file

abbrev pub session_on :
    Reply Unit
    → DiskFile
    → (Superblock → DiskFile → Option Superblock × DiskFile)
    → Option Superblock × DiskFile
session_on (done u sb) file rest = rest sb file
session_on (throw e sb) file rest = rest sb file
session_on fault file rest = (none, file)

-- A list of requests on the superblock and the file; a fault ends it, and leaves the file that the
-- last flush in front of it has written.
unfoldable pub session :
    List (Context × Request) → Superblock → DiskFile → Option Superblock × DiskFile
session [] sb file = (some sb, file)
session ((c, r) ∷ rest) sb file = session_on (handle c r sb) (file_after r sb file) (session rest)

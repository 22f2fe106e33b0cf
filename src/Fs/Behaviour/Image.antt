-- ===== src/Fs/Behaviour/Image.antt =====
-- Mounting again and again: each mount loads the image, serves requests and saves the image.
use sisop_mendez.Base.{List, Option, [], none, some, ◌∷◌}
use sisop_mendez.Fs.Disk.{
  DiskFile, Outcome, absent, destroy, flush, image, init, no_file, no_write, short, written,
}
use sisop_mendez.Fs.Requests.{Request, session}
use sisop_mendez.Fs.Types.{Context, Superblock}
use sisop_mendez.Fs.Valid.{IsValid}

-- One mount: the context in which `fisopfs_init` runs, the requests, and how the C library answers
-- `fisopfs_destroy`.
pub record Mount : Type 0 where
  pub context : Context
  pub requests : List (Context × Request)
  pub outcome : Outcome

-- The file behind a mount; a fault ends the process without a `fisopfs_destroy`.
abbrev pub unmount : Mount → Option Superblock × DiskFile → DiskFile
unmount m (none, file) = file
unmount m (some sb, file) = destroy m.outcome sb file

unfoldable pub mounts : List Mount → DiskFile → DiskFile
mounts [] file = file
mounts (m ∷ rest) file = mounts rest (unmount m (session m.requests (init m.context file) file))

-- A file that `fisopfs_init` loads into a well-formed superblock.
abbrev pub Loads : DiskFile → Type 0
Loads absent = Unit
Loads (image sb) = IsValid sb
Loads (short sb) = IsValid sb

abbrev pub Saved : Outcome → Type 0
Saved no_file = Unit
Saved (no_write left) = ⊥
Saved written = Unit

abbrev pub SavedBy : Request → Type 0
SavedBy (Request.flush path o) = Saved o
SavedBy r = Unit

-- What a session leaves: a well-formed superblock, if it comes to its end, and a file that loads.
abbrev pub Left : Option Superblock × DiskFile → Type 0
Left (none, file) = Loads file
Left (some sb, file) = IsValid sb × Loads file

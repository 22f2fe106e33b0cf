-- ===== src/Fs/Names.antt =====
-- What a lookup finds once an inode has been made (`Made`) or removed (`Removed`).
pub mod Made
pub mod Removed

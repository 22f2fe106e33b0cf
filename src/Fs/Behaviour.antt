-- ===== src/Fs/Behaviour.antt =====
-- What single handlers of fisopfs do: listing a directory, resizing a file, the image on disk, and
-- inputs at which the code misses its intention.
pub mod Listing
pub mod Resize
pub mod Image
pub mod Misses

-- ===== src/Fs.antt =====
-- The FUSE file system of TPs/FileSystem/fisopfs: the superblock and its inodes (`Types`), the C
-- strings that name them (`Paths`), the table of utils.c (`Table`), the handlers of fisopfs.c
-- (`Handlers`, `Files`) and its image on disk (`Disk`).
pub mod Types
pub mod Paths
pub mod Table
pub mod Handlers
pub mod Files
pub mod Disk
pub mod Valid
pub mod Names
pub mod Requests
pub mod Behaviour
pub mod Contents

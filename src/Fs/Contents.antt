-- ===== src/Fs/Contents.antt =====
-- What a file holds once it has been written: the strings in its buffer (`Bytes`), the handlers at
-- a file that is there (`Access`), and what is read back (`Back`).
pub mod Bytes
pub mod Access
pub mod Back

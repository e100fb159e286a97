-- ===== src/Files.antt =====
-- internal/fsutil: the file system helpers that the other packages share.
pub mod Chase
pub mod Mounts

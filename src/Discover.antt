-- ===== src/Discover.antt =====
-- internal/discover: finding the installed extension images.
pub mod Version
pub mod Pick
pub mod Images

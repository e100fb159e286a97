-- ===== src/Overlay.antt =====
-- internal/overlay: merging extensions into the hierarchies.
pub mod Markers
pub mod Options
pub mod Submounts
pub mod Origin
pub mod Kernel
pub mod Workspace
pub mod Mutable
pub mod Unmerge
pub mod Engine
pub mod Commands

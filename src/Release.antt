-- ===== src/Release.antt =====
-- internal/release: os-release files and the compatibility of an extension with its host.
pub mod Arch
pub mod Class
pub mod Validate
pub mod Names
pub mod EnvFile
pub mod Lookup

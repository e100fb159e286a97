-- ===== src/Image/Policy.antt =====
-- internal/image/policy.go, systemd.image-policy(7).
pub mod Flags
pub mod Parse
pub mod Decide
pub mod Normalize
pub mod Enforce

-- ===== src/Command.antt =====
-- cmd/sysext: the program around the other parts.
pub mod CheckImage

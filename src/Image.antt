-- ===== src/Image.antt =====
-- internal/image: disk images, their partition tables and the image policy.
pub mod Designator
pub mod Policy
pub mod Gpt
pub mod Ids
pub mod Dissect
pub mod Table

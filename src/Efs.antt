-- ===== src/Efs.antt =====
-- The file system: easy-fs/src.
pub mod Cache
pub mod Layout
pub mod Encode
pub mod Bitmap
pub mod Content
pub mod Resize
pub mod Volume
pub mod Directory

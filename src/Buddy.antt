-- ===== src/Buddy.antt =====
-- The buddy allocator: buddy-allocator/src.
pub mod Chain
pub mod Blocks
pub mod Init
pub mod Class

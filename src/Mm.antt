-- ===== src/Mm.antt =====
-- Memory management of the kernel: os/src/mm.
pub mod Address
pub mod Memory
pub mod Frame
pub mod PageTable
pub mod Buffer
pub mod Segment

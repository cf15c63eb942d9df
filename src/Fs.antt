-- ===== src/Fs.antt =====
-- Files of the kernel: os/src/fs.
pub mod Pipe

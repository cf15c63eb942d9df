-- ===== src/Task.antt =====
-- Processes and threads of the kernel: os/src/task.
pub mod Recycle
pub mod Sched
pub mod Slots
pub mod Fds
pub mod Wait
pub mod Timer
pub mod Stacks
pub mod Signal

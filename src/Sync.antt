-- ===== src/Sync.antt =====
-- Mutexes, semaphores and condition variables: os/src/sync, with the scheduler of os/src/task.
pub mod Mutex
pub mod Semaphore
pub mod Syscall

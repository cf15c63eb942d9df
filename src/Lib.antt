-- ===== src/Lib.antt =====
-- acore, a small operating system for RISC-V in Rust: a model of the parts of the kernel and of its
-- file system that carry their logic, and theorems about them.
--
-- The parts and how they interact. The kernel (os/) runs threads of user processes on one
-- processor. A thread enters the kernel by a trap, and a system call works on the tables of its
-- process (descriptors, mutexes, semaphores, condition variables, children, threads, signals),
-- on the page tables, or on the ready queue; it gives the processor away by suspending or blocking
-- itself. Page tables take their frames from the frame allocator. Pipes are files in the
-- descriptor table and release the processor while they are empty or full. Files on disk are
-- reached through easy-fs, which reads and writes blocks only through a cache of 16 blocks.
--
-- Where each part stands, and what it corresponds to:
--   Base          Rust's usize arithmetic modulo 2 ^ 64 (Base/Word), bits as sets of flags
--                 (Base/Word/Flags), vectors and slices as lists, and panics as a result
--                 (Base/Panic: unwrap, assert, an index out of range).
--   Mm/Address    os/src/mm/address.rs: addresses, page numbers, floor, ceil, ranges of pages.
--   Mm/Frame      os/src/mm/frame_allocator.rs: StackFrameAllocator, frame_alloc, frame_dealloc.
--   Mm/PageTable  os/src/mm/page_table.rs: entries, find_pte_create, find_pte, map, unmap, translate.
--                 Physical memory (Mm/Memory) is a function from frame and index to a word.
--   Mm/Buffer     os/src/mm/page_table.rs: translated_byte_buffer, translated_str, UserBuffer.
--   Mm/Segment    os/src/mm/address_space.rs: MemorySegment, map_page, unmap_page, map, unmap. Its
--                 map of frames by page is an association list.
--   Fs/Pipe       os/src/fs/pipe.rs: the ring buffer, make_pipe, and one turn of Pipe::read and
--                 Pipe::write between two releases of the processor, as steps of a relation.
--   Task/Recycle  os/src/task/utils.rs: the allocator of thread and process numbers.
--   Task/Sched    os/src/task/scheduler and os/src/task/mod.rs: the ready queue, run_tasks,
--                 suspend_current_and_run_next, block_current_and_run_next, wakeup_task.
--   Task/Slots    the tables that reuse their first free slot (os/src/syscall/sync.rs).
--   Task/Fds      os/src/syscall/fs.rs and alloc_fd of os/src/task/process/mod.rs; a file is any
--                 type with the methods of the trait File.
--   Task/Wait     sys_waitpid of os/src/syscall/process.rs, sys_waittid and the table of
--                 sys_thread_create of os/src/syscall/thread.rs.
--   Task/Signal   os/src/task/signal, check_pending_signals and handle_signals of
--                 os/src/task/mod.rs, sys_kill, sys_sigaction, sys_sigprocmask, sys_sigreturn.
--   Task/Timer    os/src/timer/mod.rs and sys_sleep of os/src/syscall/sync.rs.
--   Task/Stacks   positions of os/src/task/thread/kernel_stack.rs and user_resource.rs.
--   Sync          os/src/sync (Mutex, Semaphore, Condvar) over Task/Sched, and the calls of
--                 os/src/syscall/sync.rs on the tables of a process (Sync/Syscall).
--   Efs/Cache     easy-fs/src/block_cache.rs, over a device with blocks of any type.
--   Efs/Bitmap    easy-fs/src/bitmap.rs.
--   Efs/Layout    easy-fs/src/layout.rs: super block, inode addressing, directory entries.
--   Efs/Content   easy-fs/src/layout.rs: read_at and write_at, over a device of bytes.
--   Efs/Resize    easy-fs/src/layout.rs: increase_size and clear_size, over the words of blocks.
--   Efs/Encode    easy-fs/src/layout.rs: super block and inodes as words of 64 bits of a block.
--   Efs/Volume    easy-fs/src/efs.rs: create, open, allocation of inodes and data blocks.
--   Efs/Directory easy-fs/src/vfs.rs: find_inode_id and ls.
--   Buddy/Chain   buddy-allocator/src/linked_list.rs: lists threaded through the free blocks.
--   Buddy/Blocks  buddy-allocator/src/lib.rs: alloc, dealloc, and the lists of each class.
--   Buddy/Class   the class that alloc and dealloc compute from a layout.
--   Buddy/Init    buddy-allocator/src/lib.rs: init.
--
-- Conventions. A call that may panic returns an Outcome. A call that gives the processor away is
-- modelled up to the switch, and what follows is the next turn. isize results are their 64 bits.
-- An Arc is the number of the object; where a strong count matters it is a field or a table.
-- A UPSafeCell is exclusive access to the state, which one processor without kernel interrupts has.
--
-- Bounds and fuel. The walks of page tables recurse on the three indexes of a page number.
-- check_pending_signals recurses on the 32 signals, the bitmap's search on its blocks and words.
-- The loop of sys_thread_create runs on tid + 1 rounds of fuel, as many as it pushes at most.
-- The turns of a pipe recurse on the user's buffer. The loops of read_at and write_at have a round for
-- each byte, more than they have blocks; the last loop of increase_size has a round for each
-- data block and one more; the merges of dealloc have a round for each class,
-- and init one for each byte of its range. The maps of a segment recurse on the pages of its
-- range. translated_byte_buffer
-- has a round for each byte, and the iterator of a user buffer one more than it has bytes;
-- translated_str has as many as it is given, since a string has no bound.
--
-- Not modelled: assembly, trap entry and context switches, devices (virtio, UART, PLIC) and the
-- SBI, since they are instructions and memory-mapped registers; loading of ELF files, which the
-- package xmas_elf does; user programs and the user library; the program that packs the image
-- (easy-fs-fuse). Of address spaces only the mapping of segments is modelled. Exit, fork and exec,
-- and the operations of vfs.rs that change files (create, clear, write_at) are not.
pub mod Base
pub mod Buddy
pub mod Efs
pub mod Fs
pub mod Mm
pub mod Sync
pub mod Task

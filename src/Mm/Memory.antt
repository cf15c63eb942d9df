-- ===== src/Mm/Memory.antt =====
-- Physical memory as the kernel's page tables see it: each page frame is 512 words of 64 bits.
use acore.Base.{ℕ, ◌==◌, if◌then◌else◌}

-- The word at an index of a frame.
abbrev pub Memory : Type 0
Memory = ℕ → ℕ → ℕ

-- `get_bytes_array().fill(0)` on a frame.
abbrev pub clear_frame : Memory → ℕ → Memory
clear_frame m ppn p i = if p == ppn then 0 else m p i

-- A store to one word.
abbrev pub store : Memory → ℕ → ℕ → ℕ → Memory
store m ppn idx v p i = if p == ppn then (if i == idx then v else m p i) else m p i

-- ===== src/Efs/Content.antt =====
-- The bytes of a file: read_at and write_at of easy-fs/src/layout.rs. A device is the bytes of each
-- block, as they read through the block cache.
pub mod Read
pub mod Place
pub mod Write
pub mod Roundtrip
mod Tests
-- Write

use acore.Base.{
  ℕ, zero, suc, ◌+◌, ◌-◌, ◌*◌, ◌/◌, ◌%◌, ◌^◌, min, List, [], ◌∷◌, ◌++◌, ltb, leb, ◌==◌, ◌&&◌,
  if◌then◌else◌, Outcome, ok, panic, ◌>>=◌, ◌>>◌, assert, length, get_or,
}
use acore.Base.Word.{add64}
use acore.Efs.Layout.{block_sz, DiskInode, get_disk_id}

abbrev pub Device : Type 0
Device = ℕ → ℕ → ℕ

-- A block seen as an `IndirectBlock`: words of four bytes, the lowest first.
abbrev pub words : Device → ℕ → ℕ → ℕ
words device id i =
    device id (4 * i)
    + 256 * device id (4 * i + 1)
    + 65536 * device id (4 * i + 2)
    + 16777216 * device id (4 * i + 3)

-- `&data_block[at..at + n]`.
abbrev pub slice : (ℕ → ℕ) → ℕ → ℕ → List ℕ
slice bytes at zero = []
slice bytes at (suc n) = bytes at ∷ slice bytes (suc at) n

-- `data_block[at..at + n].copy_from_slice(src)` in one block.
abbrev pub copy_in : Device → ℕ → ℕ → ℕ → (ℕ → ℕ) → Device
copy_in device id at n src b j =
    if b == id && (leb at j && ltb j (at + n)) then src (j - at) else device b j

-- Where the part of the range that ends in the block of `cur` ends.
abbrev pub block_end : ℕ → ℕ → ℕ
block_end cur end = min ((cur / block_sz + 1) * block_sz) end

abbrev pub block_of : DiskInode → Device → ℕ → Outcome ℕ
block_of inode device cur = get_disk_id inode (words device) (cur / block_sz % 2 ^ 32)

-- The loop of `read_at`, over the rounds that are left.
unfoldable pub read_loop : ℕ → DiskInode → Device → ℕ → ℕ → Outcome (List ℕ)
read_loop zero inode device cur end = panic
read_loop (suc left) inode device cur end =
    let cur_end = block_end cur end in
    let rest = read_loop left inode device cur_end end in
    do
      id ← block_of inode device cur
      (if cur_end == end
          then ok (slice (device id) (cur % block_sz) (cur_end - cur))
          else (do bytes ← rest; ok (slice (device id) (cur % block_sz) (cur_end - cur) ++ bytes)))

-- The bytes that are copied to the front of a buffer of `len` bytes; the result of the call is
-- their number.
unfoldable pub read_at : DiskInode → Device → ℕ → ℕ → Outcome (List ℕ)
unfolding read_loop
read_at inode device offset len =
    let end = min (add64 offset len) inode.size in
    if leb end offset then ok [] else read_loop (end - offset) inode device offset end

-- The loop of `write_at`: `buf_ptr` bytes of the buffer are written.
unfoldable pub write_loop : ℕ → DiskInode → Device → ℕ → ℕ → List ℕ → ℕ → Outcome (ℕ × Device)
write_loop zero inode device cur end buf buf_ptr = panic
write_loop (suc left) inode device cur end buf buf_ptr = do
  id ← block_of inode device cur
  (let cur_end = block_end cur end in
      let device' =
        copy_in device id (cur % block_sz) (cur_end - cur) (λ i. get_or buf (buf_ptr + i) 0) in
      let rest = write_loop left inode device' cur_end end buf (buf_ptr + (cur_end - cur)) in
      if cur_end == end then ok (buf_ptr + (cur_end - cur), device') else rest)

unfoldable pub write_at : DiskInode → Device → ℕ → List ℕ → Outcome (ℕ × Device)
unfolding write_loop
write_at inode device offset buf =
    let end = min (add64 offset (length buf)) inode.size in
    assert (leb offset end) >> write_loop (end - offset + 1) inode device offset end buf 0

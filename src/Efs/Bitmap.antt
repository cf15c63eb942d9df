-- ===== src/Efs/Bitmap.antt =====
-- easy-fs/src/bitmap.rs. A bitmap block is 64 words of 64 bits, read and written through the block
-- cache.
pub mod Laws
mod Tests
use Prim.Native.Nat.{bit_or, bit_and}
use acore.Base.{
  ℕ, zero, suc, ◌+◌, ◌-◌, ◌*◌, ◌/◌, ◌%◌, ◌^◌, Bool, not, ltb, ◌==◌, if◌then◌else◌, Option, none,
  some, Outcome, ok, ◌>>=◌, ◌>>◌, assert,
}

abbrev pub block_bits : ℕ
block_bits = 4096

abbrev pub all_ones : ℕ
all_ones = 2 ^ 64 - 1

pub record Bitmap : Type 0 where
  pub start_disk_id : ℕ
  pub blocks : ℕ

-- The word at an index of a block.
abbrev pub Device : Type 0
Device = ℕ → ℕ → ℕ

abbrev pub set_word : Device → ℕ → ℕ → ℕ → Device
set_word device block i word b j =
    if b == block then (if j == i then word else device b j) else device b j

-- `trailing_ones`, over the bits that are left.
abbrev pub trailing_ones : ℕ → ℕ → ℕ
trailing_ones zero word = 0
trailing_ones (suc left) word =
    let rest = trailing_ones left (word / 2) in if word % 2 == 1 then suc rest else 0

-- The first word of a block that is not full, from an index on.
abbrev pub find_word : ℕ → (ℕ → ℕ) → ℕ → Option ℕ
find_word zero block i = none
find_word (suc left) block i =
    let rest = find_word left block (suc i) in if block i == all_ones then rest else some i

-- The loop of `alloc` over the blocks that are left.
abbrev pub alloc_from : ℕ → ℕ → ℕ → Device → Option ℕ × Device
alloc_from zero start block_pos device = (none, device)
alloc_from (suc left) start block_pos device =
    let rest = alloc_from left start (suc block_pos) device in
    let block = block_pos + start in
    elim (find_word 64 (device block) 0) [
      | none ↦ rest
      | some i ↦
          let inner = trailing_ones 64 (device block i) in
          (
            some (block_pos * block_bits + i * 64 + inner),
            set_word device block i (bit_or (device block i) (2 ^ inner)),
          )
    ]

unfoldable pub bitmap_alloc : Bitmap → Device → Option ℕ × Device
bitmap_alloc b device = alloc_from b.blocks b.start_disk_id 0 device

unfoldable pub decomposition : ℕ → ℕ × ℕ × ℕ
decomposition bit = (bit / block_bits, bit % block_bits / 64, bit % 64)

-- `word & !(1 << inner)` on a word that has the bit.
abbrev pub clear_bit : ℕ → ℕ → ℕ
clear_bit word inner = word - 2 ^ inner

unfoldable pub bitmap_dealloc : Bitmap → Device → ℕ → Outcome Device
unfolding decomposition
bitmap_dealloc b device bit =
    let (block_pos, i, inner) = decomposition bit in
    let block = block_pos + b.start_disk_id in
    do
      assert (ltb 0 (bit_and (device block i) (2 ^ inner)))
      ok (set_word device block i (clear_bit (device block i) inner))

unfoldable pub max_allocatable_blocks : Bitmap → ℕ
max_allocatable_blocks b = b.blocks * block_bits

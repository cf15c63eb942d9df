-- ===== src/Efs/Layout.antt =====
-- easy-fs/src/layout.rs without increase_size, clear_size, read_at and write_at: the super block, the
-- addresses of an inode's blocks, and directory entries. An indirect block is the words at its id,
-- as they read through the block cache.
pub mod Laws
mod Tests
use acore.Base.{
  ℕ, zero, suc, ◌+◌, ◌-◌, ◌*◌, ◌/◌, ◌%◌, ◌^◌, List, [], ◌∷◌, ◌++◌, Bool, true, false, ltb, leb,
  ◌==◌, if◌then◌else◌, Option, none, some, Outcome, ok, panic, ◌>>=◌, ◌>>◌, ◌&&◌, assert, unwrap,
  length, get_elem?, replicate, take,
}

abbrev pub block_sz : ℕ
block_sz = 512

abbrev pub efs_magic : ℕ
efs_magic = 998244353

abbrev pub inode_direct_count : ℕ
inode_direct_count = 28

abbrev pub inode_indirect1_count : ℕ
inode_indirect1_count = 128

abbrev pub indirect1_bound : ℕ
indirect1_bound = 156

abbrev pub indirect2_bound : ℕ
indirect2_bound = 16540

abbrev pub name_length_limit : ℕ
name_length_limit = 27

pub record SuperBlock : Type 0 where
  pub magic : ℕ
  pub total_blocks : ℕ
  pub inode_bitmap_blocks : ℕ
  pub inode_area_blocks : ℕ
  pub data_bitmap_blocks : ℕ
  pub data_area_blocks : ℕ

unfoldable pub super_block_initialize : ℕ → ℕ → ℕ → ℕ → ℕ → SuperBlock
super_block_initialize total inode_bitmap inode_area data_bitmap data_area = record {
  magic = efs_magic;
  total_blocks = total;
  inode_bitmap_blocks = inode_bitmap;
  inode_area_blocks = inode_area;
  data_bitmap_blocks = data_bitmap;
  data_area_blocks = data_area;
}

unfoldable pub super_block_is_valid : SuperBlock → Bool
super_block_is_valid b = b.magic == efs_magic

pub data DiskInodeType : Type 0 where
  file directory : DiskInodeType

pub record DiskInode : Type 0 where
  pub size : ℕ
  pub direct : List ℕ
  pub indirect1 : ℕ
  pub indirect2 : ℕ
  pub type_of : DiskInodeType

unfoldable pub inode_initialize : DiskInodeType → DiskInode
inode_initialize t = record {
  size = 0;
  direct = replicate inode_direct_count 0;
  indirect1 = 0;
  indirect2 = 0;
  type_of = t;
}

unfoldable pub is_dir : DiskInode → Bool
is_dir inode = elim inode.type_of [ file ↦ false | directory ↦ true ]

-- An element of the indirect block at an id.
abbrev pub entry_at : (ℕ → ℕ → ℕ) → ℕ → ℕ → Outcome ℕ
entry_at device id i = assert (ltb i inode_indirect1_count) >> ok (device id i)

unfoldable pub get_disk_id : DiskInode → (ℕ → ℕ → ℕ) → ℕ → Outcome ℕ
get_disk_id inode device inner_id =
    if ltb inner_id inode_direct_count
    then unwrap (get_elem? inode.direct inner_id)
    else if ltb inner_id indirect1_bound
    then entry_at device inode.indirect1 (inner_id - inode_direct_count)
    else (do
      indirect1 ←
          entry_at device inode.indirect2 ((inner_id - indirect1_bound) / inode_indirect1_count)
      entry_at device indirect1 ((inner_id - indirect1_bound) % inode_indirect1_count))

-- Sizes are 32 bits and the sum wraps.
unfoldable pub data_blocks : ℕ → ℕ
data_blocks size = (size + block_sz - 1) % 2 ^ 32 / block_sz

abbrev pub indirect_blocks : ℕ → ℕ
indirect_blocks n =
    (if ltb inode_direct_count n then 1 else 0)
    + (if ltb indirect1_bound n
        then 1 + (n - indirect1_bound + inode_indirect1_count - 1) / inode_indirect1_count
        else 0)

unfoldable pub total_blocks : ℕ → ℕ
unfolding data_blocks
total_blocks size = data_blocks size + indirect_blocks (data_blocks size)

unfoldable pub blocks_num_needed : DiskInode → ℕ → Outcome ℕ
unfolding total_blocks
blocks_num_needed inode new_size = do
  assert (leb inode.size new_size)
  ok ((total_blocks new_size + 2 ^ 32 - total_blocks inode.size) % 2 ^ 32)

pub record DirEntry : Type 0 where
  pub name : List ℕ
  pub inode_id : ℕ

-- `bytes[..name.len()]` is out of range for a name of more than 28 bytes.
unfoldable pub dir_entry_new : List ℕ → ℕ → Outcome DirEntry
dir_entry_new name inode_id = do
  assert (leb (length name) (name_length_limit + 1))
  ok (record {
    name = name ++ replicate (name_length_limit + 1 - length name) 0;
    inode_id = inode_id;
  })

-- The bytes before the first zero; the search runs off the end if there is none.
abbrev pub until_zero : List ℕ → Outcome (List ℕ)
until_zero [] = panic
until_zero (b ∷ bs) =
    let rest = until_zero bs in if b == 0 then ok [] else (do r ← rest; ok (b ∷ r))

-- `core::str::from_utf8`, as the standard defines UTF-8. After a first byte: how many bytes follow,
-- and the range of the next one; later ones are from 128 to 191.
abbrev pub utf8_lead : ℕ → Option (ℕ × ℕ × ℕ)
utf8_lead b =
    if leb b 127
    then some (0, 128, 191)
    else if leb b 193
    then none
    else if leb b 223
    then some (1, 128, 191)
    else if leb b 239
    then some (2, (if b == 224 then 160 else 128), if b == 237 then 159 else 191)
    else if leb b 244
    then some (3, (if b == 240 then 144 else 128), if b == 244 then 143 else 191)
    else none

-- Over the bytes of a character that are still to come.
abbrev pub utf8_from : ℕ → ℕ → ℕ → List ℕ → Bool
utf8_from left low high [] = left == 0
utf8_from zero low high (b ∷ bs) = elim (utf8_lead b) [
  | none ↦ false
  | some (left, low', high') ↦ utf8_from left low' high' bs
]
utf8_from (suc left) low high (b ∷ bs) =
    let rest = utf8_from left 128 191 bs in leb low b && leb b high && rest

unfoldable pub is_utf8 : List ℕ → Bool
is_utf8 bytes = utf8_from 0 128 191 bytes

unfoldable pub dir_entry_name : DirEntry → Outcome (List ℕ)
unfolding is_utf8
dir_entry_name e = do name ← until_zero e.name; assert (is_utf8 name); ok name

-- ===== src/Efs/Volume.antt =====
-- easy-fs/src/efs.rs: the regions of a volume, its bitmaps and its inodes. A disk is the words of 64
-- bits of its blocks, as they read through the block cache; the super block, the bitmaps and the
-- inodes are all words of it.
pub mod Create
mod Tests
use acore.Base.{
  ℕ, ◌+◌, ◌-◌, ◌*◌, ◌/◌, ◌%◌, ◌^◌, Bool, ltb, leb, ◌==◌, ◌&&◌, if◌then◌else◌, Outcome, ok, ◌>>=◌,
  ◌>>◌, assert, unwrap,
}
use acore.Efs.Layout.{
  block_sz, SuperBlock, super_block_initialize, super_block_is_valid, directory, inode_initialize,
}
use acore.Efs.Encode.{read_super_block, write_super_block, write_inode}
use acore.Efs.Bitmap.{Bitmap, Device, bitmap_alloc, bitmap_dealloc, max_allocatable_blocks}

pub record EasyFileSystem : Type 0 where
  pub inode_bitmap : Bitmap
  pub data_bitmap : Bitmap
  pub inode_area_start_block : ℕ
  pub data_area_start_block : ℕ

-- `size_of::<DiskInode>()`: 32 words of four bytes and the type.
abbrev pub inode_size : ℕ
inode_size = 128

-- `as u32`, and sums and differences of `u32`.
abbrev pub u32 : ℕ → ℕ
u32 n = n % 2 ^ 32

unfoldable pub inode_area_blocks_for : ℕ → ℕ
unfolding max_allocatable_blocks
inode_area_blocks_for inode_bitmap_blocks =
    (max_allocatable_blocks (record { start_disk_id = 1; blocks = inode_bitmap_blocks })
        * inode_size
      + block_sz
      - 1)
    / block_sz

-- The sizes that `create` computes for a number of blocks. The difference wraps below 0.
pub record Sizes : Type 0 where
  pub inode_total_blocks : ℕ
  pub data_total_blocks : ℕ
  pub data_bitmap_blocks : ℕ
  pub data_area_blocks : ℕ

unfoldable pub regions_for : ℕ → ℕ → Sizes
unfolding inode_area_blocks_for
regions_for total_blocks inode_bitmap_blocks =
    let inode_total = inode_bitmap_blocks + inode_area_blocks_for inode_bitmap_blocks in
    let data_total = (total_blocks + 2 ^ 64 - 1 - inode_total) % 2 ^ 64 in
    let data_bitmap = (data_total + block_sz * 8) / (block_sz * 8 + 1) in
    record {
      inode_total_blocks = inode_total;
      data_total_blocks = data_total;
      data_bitmap_blocks = data_bitmap;
      data_area_blocks = data_total - data_bitmap;
    }

-- The loop that fills all blocks with zeros.
abbrev pub clear_blocks : ℕ → Device → Device
clear_blocks total device b i = if ltb b total then 0 else device b i

unfoldable pub get_inode_block_disk_id : EasyFileSystem → ℕ → ℕ × ℕ
get_inode_block_disk_id efs inode_block_id = (
  u32 (efs.inode_area_start_block + inode_block_id / (block_sz / inode_size)),
  inode_block_id % (block_sz / inode_size) * inode_size,
)

unfoldable pub get_data_block_disk_id : EasyFileSystem → ℕ → ℕ
get_data_block_disk_id efs data_block_id = u32 (efs.data_area_start_block + data_block_id)

unfoldable pub alloc_inode : EasyFileSystem → Device → Outcome (ℕ × Device)
unfolding bitmap_alloc
alloc_inode efs disk =
    let (bit, bits) = bitmap_alloc efs.inode_bitmap disk in do id ← unwrap bit; ok (u32 id, bits)

unfoldable pub alloc_data : EasyFileSystem → Device → Outcome (ℕ × Device)
unfolding bitmap_alloc
alloc_data efs disk =
    let (bit, bits) = bitmap_alloc efs.data_bitmap disk in
    do id ← unwrap bit; ok (u32 (u32 id + efs.data_area_start_block), bits)

-- The block is filled with zeros before it is given back.
abbrev pub clear_block : ℕ → Device → Device
clear_block id device b i = if b == id then 0 else device b i

unfoldable pub dealloc_data : EasyFileSystem → Device → ℕ → Outcome Device
unfolding bitmap_dealloc
dealloc_data efs disk disk_id = do
  assert (leb efs.data_area_start_block disk_id)
  bitmap_dealloc efs.data_bitmap (clear_block disk_id disk) (disk_id - efs.data_area_start_block)

-- The file system of `create`, before it allocates the root.
unfoldable pub efs_for : ℕ → ℕ → EasyFileSystem
unfolding regions_for
efs_for total_blocks inode_bitmap_blocks =
    let r = regions_for total_blocks inode_bitmap_blocks in
    record {
      inode_bitmap = record { start_disk_id = 1; blocks = inode_bitmap_blocks };
      data_bitmap = record {
        start_disk_id = 1 + r.inode_total_blocks;
        blocks = r.data_bitmap_blocks;
      };
      inode_area_start_block = u32 (1 + inode_bitmap_blocks);
      data_area_start_block = u32 (1 + r.inode_total_blocks + r.data_bitmap_blocks);
    }

unfoldable pub super_block_for : ℕ → ℕ → SuperBlock
unfolding regions_for inode_area_blocks_for super_block_initialize
super_block_for total_blocks inode_bitmap_blocks =
    let r = regions_for total_blocks inode_bitmap_blocks in
    super_block_initialize total_blocks inode_bitmap_blocks
      (u32 (inode_area_blocks_for inode_bitmap_blocks)) (u32 r.data_bitmap_blocks)
      (u32 r.data_area_blocks)

unfoldable pub efs_create : ℕ → ℕ → Device → Outcome (EasyFileSystem × Device)
unfolding efs_for super_block_for alloc_inode get_inode_block_disk_id inode_initialize
efs_create total_blocks inode_bitmap_blocks disk =
    let efs = efs_for total_blocks inode_bitmap_blocks in
    let cleared = clear_blocks total_blocks disk in
    let labelled = write_super_block cleared (super_block_for total_blocks inode_bitmap_blocks) in
    do
      (id, disk') ← alloc_inode efs labelled
      assert (id == 0)
      let (block, offset) = get_inode_block_disk_id efs 0
      ok (efs, write_inode disk' block offset (inode_initialize directory))

unfoldable pub efs_open : Device → Outcome EasyFileSystem
unfolding super_block_is_valid
efs_open disk =
    let s = read_super_block disk in
    let inode_total_blocks = u32 (s.inode_bitmap_blocks + s.inode_area_blocks) in
    do
      assert (super_block_is_valid s)
      ok (record {
        inode_bitmap = record { start_disk_id = 1; blocks = s.inode_bitmap_blocks };
        data_bitmap = record {
          start_disk_id = u32 (1 + inode_total_blocks);
          blocks = s.data_bitmap_blocks;
        };
        inode_area_start_block = u32 (1 + s.inode_bitmap_blocks);
        data_area_start_block = u32 (1 + inode_total_blocks + s.data_bitmap_blocks);
      })

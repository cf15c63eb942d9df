-- ===== src/Efs/Encode.antt =====
-- The super block and inodes in the bytes of their blocks: the `repr(C)` layouts of SuperBlock and
-- DiskInode in easy-fs/src/layout.rs, as words of 64 bits, each two fields of 32 bits, the lower one
-- first. The type of an inode is the number of its variant, 0 for a file and 1 for a directory, in a
-- byte that zeros pad to 32 bits.
pub mod Laws
use acore.Base.{
  ℕ, zero, suc, ◌+◌, ◌-◌, ◌*◌, ◌/◌, ◌%◌, ◌^◌, List, [], ◌∷◌, ◌++◌, ltb, leb, ◌==◌, ◌&&◌,
  if◌then◌else◌, get_or,
}
use acore.Efs.Layout.{SuperBlock, DiskInode, DiskInodeType, file, directory}
use acore.Efs.Bitmap.{Device, set_word}

-- The field at an index of a block.
unfoldable pub field : (ℕ → ℕ) → ℕ → ℕ
field block k = if k % 2 == 0 then block (k / 2) % 2 ^ 32 else block (k / 2) / 2 ^ 32

unfoldable pub fields : ℕ → (ℕ → ℕ) → ℕ → List ℕ
unfolding field
fields zero block k = []
fields (suc n) block k = field block k ∷ fields n block (suc k)

unfoldable pub read_super_block : Device → SuperBlock
unfolding field
read_super_block device = record {
  magic = field (device 0) 0;
  total_blocks = field (device 0) 1;
  inode_bitmap_blocks = field (device 0) 2;
  inode_area_blocks = field (device 0) 3;
  data_bitmap_blocks = field (device 0) 4;
  data_area_blocks = field (device 0) 5;
}

unfoldable pub write_super_block : Device → SuperBlock → Device
write_super_block device s =
    set_word
      (set_word (set_word device 0 0 (s.magic + 2 ^ 32 * s.total_blocks)) 0 1
        (s.inode_bitmap_blocks + 2 ^ 32 * s.inode_area_blocks))
      0 2 (s.data_bitmap_blocks + 2 ^ 32 * s.data_area_blocks)

abbrev pub type_number : DiskInodeType → ℕ
type_number file = 0
type_number directory = 1

abbrev pub pairs : List ℕ → List ℕ
pairs [] = []
pairs (a ∷ []) = a ∷ []
pairs (a ∷ b ∷ rest) = (a + 2 ^ 32 * b) ∷ pairs rest

unfoldable pub inode_words : DiskInode → List ℕ
inode_words inode = pairs (
    inode.size
    ∷ (inode.direct ++ (inode.indirect1 ∷ inode.indirect2 ∷ type_number inode.type_of ∷ [])))

-- An inode at an offset in bytes of a block.
unfoldable pub write_inode : Device → ℕ → ℕ → DiskInode → Device
unfolding inode_words
write_inode device id offset inode b i =
    if b == id && leb (offset / 8) i && ltb i (offset / 8 + 16)
    then get_or (inode_words inode) (i - offset / 8) 0
    else device b i

unfoldable pub inode_of : (ℕ → ℕ) → ℕ → DiskInode
unfolding field fields
inode_of block k = record {
  size = field block k;
  direct = fields 28 block (k + 1);
  indirect1 = field block (k + 29);
  indirect2 = field block (k + 30);
  type_of = if field block (k + 31) % 256 == 0 then file else directory;
}

unfoldable pub read_inode : Device → ℕ → ℕ → DiskInode
unfolding inode_of
read_inode device id offset = inode_of (device id) (offset / 4)

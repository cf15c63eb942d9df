-- ===== src/Efs/Layout/Tests.antt =====
-- Inodes and directory entries at concrete values.
use acore.Base.{◌≡◌, refl, replicate}
use acore.Efs.Layout.{DiskInode, file, total_blocks}

-- 100000 bytes: 196 blocks, of which 40 stand behind the double indirect block.
abbrev big : DiskInode
big = record {
  size = 100000;
  direct = replicate 28 5;
  indirect1 = 6;
  indirect2 = 7;
  type_of = file;
}

big_total : total_blocks 100000 ≡ 199
unfolding total_blocks
big_total = refl

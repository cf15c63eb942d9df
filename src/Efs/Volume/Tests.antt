-- ===== src/Efs/Volume/Tests.antt =====
-- A volume of 8192 blocks with one block of inode bits.
use acore.Base.{ℕ, ◌<◌, ◌≡◌, ok, arith}
use acore.Efs.Layout.{directory, inode_initialize}
use acore.Efs.Encode.{read_super_block, read_inode}
use acore.Efs.Bitmap.{Device}
use acore.Efs.Volume.{
  EasyFileSystem, super_block_for, efs_create, efs_open, get_inode_block_disk_id,
}
use acore.Efs.Volume.Create.{fresh_word, efs_create_lem}

-- A disk of other contents.
abbrev ones : Device
ones b i = 1

efs_create_lem_example :
    (efs : EasyFileSystem) × (disk' : Device) × (efs_create 8192 1 ones ≡ ok (efs, disk'))
    × (efs_open disk' ≡ ok efs)
    × (read_super_block disk' ≡ super_block_for 8192 1)
    × (read_inode disk' (get_inode_block_disk_id efs 0).0 (get_inode_block_disk_id efs 0).1
        ≡ inode_initialize directory)
    × ((b i : ℕ) → 0 < b → b < 8192 → disk' b i ≡ fresh_word 1 b i)
efs_create_lem_example = efs_create_lem 8192 1 ones (omega arith) (omega arith) (omega arith)

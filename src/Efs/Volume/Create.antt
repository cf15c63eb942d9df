-- ===== src/Efs/Volume/Create.antt =====
-- Making a volume and opening it.
use acore.Base.{
  ◌∙◌, ℕ, zero, suc, ◌+◌, ◌-◌, ◌*◌, ◌/◌, ◌%◌, ◌^◌, ◌<◌, ◌≤◌, ◌≡◌, refl, ◌==◌, ◌&&◌, if◌then◌else◌,
  ok, arith, some,
}
use acore.Efs.Layout.{super_block_is_valid, super_block_initialize, directory, inode_initialize}
use native.Mathlib.Decide.{ℕ_discrete}
use acore.Efs.Encode.{read_super_block, write_super_block, write_inode, read_inode}
use acore.Efs.Encode.Laws.{
  Fits, read-write_super_block, write_super_block-other, read_super_block-same, write_inode-other,
  write_inode-directory, read_inode-directory,
}
use acore.Efs.Bitmap.{
  Device, alloc_from, find_word, trailing_ones, bitmap_alloc, set_word, max_allocatable_blocks,
}
use acore.Efs.Volume.{
  EasyFileSystem, inode_area_blocks_for, regions_for, efs_for, super_block_for, efs_create,
  efs_open, alloc_inode, clear_blocks, get_inode_block_disk_id,
}

inode_area_lem : (n : ℕ) → inode_area_blocks_for n ≡ 1024 * n
unfolding inode_area_blocks_for max_allocatable_blocks
inode_area_lem n = omega arith

-- The regions of a volume that has room for its inodes are the whole volume behind the super block,
-- each inode of the bitmap has a place in the area of inodes, and each data block a bit.
pub regions_for_lem :
    (total_blocks inode_bitmap_blocks : ℕ)
    → 1 + 1025 * inode_bitmap_blocks ≤ total_blocks
    → total_blocks < 2 ^ 32
    → (let r = regions_for total_blocks inode_bitmap_blocks in
        (1 + r.inode_total_blocks + r.data_bitmap_blocks + r.data_area_blocks ≡ total_blocks)
        × (r.inode_total_blocks ≡ 1025 * inode_bitmap_blocks)
        × (r.data_area_blocks ≤ 4096 * r.data_bitmap_blocks))
unfolding regions_for
regions_for_lem t n h m =
    let e = inode_area_lem n in rw e (omega (arith, h, m), omega arith, omega (arith, h, m))

alloc_from-first :
    (device : Device) (blocks : ℕ)
    → device 1 0 ≡ 0
    → alloc_from (suc blocks) 1 0 device ≡ (some 0, set_word device 1 0 1)
alloc_from-first device blocks h =
    let here : 0 + 1 ≡ 1 = refl in
    let found : find_word 64 (device 1) 0 ≡ some 0 = rw (h, find_word) refl in
    let ones : trailing_ones 64 (device 1 0) ≡ 0 = rw h refl in ground (arith, found, ones, h)

-- On an empty first word of the bitmap, the first inode is free.
alloc_first :
    (device : Device) (blocks : ℕ)
    → device 1 0 ≡ 0
    → 0 < blocks
    → bitmap_alloc (record { start_disk_id = 1; blocks = blocks }) device
      ≡ (some 0, set_word device 1 0 1)
unfolding bitmap_alloc
alloc_first device zero h p = absurd (omega (arith, p))
alloc_first device (suc blocks) h p = alloc_from-first device blocks h

alloc_root :
    (efs : EasyFileSystem) (disk : Device) (blocks : ℕ)
    → efs.inode_bitmap ≡ record { start_disk_id = 1; blocks = blocks }
    → disk 1 0 ≡ 0
    → 0 < blocks
    → alloc_inode efs disk ≡ ok (0, set_word disk 1 0 1)
unfolding alloc_inode
alloc_root efs disk blocks e h p = rw (e, alloc_first disk blocks h p) refl

efs_open-for :
    (total n : ℕ) (disk : Device)
    → 1 + 1025 * n ≤ total
    → total < 2 ^ 32
    → read_super_block disk ≡ super_block_for total n
    → efs_open disk ≡ ok (efs_for total n)
unfolding efs_open efs_for super_block_for regions_for super_block_is_valid super_block_initialize
efs_open-for total n disk h m e =
    let area = inode_area_blocks_for n in
    let size = inode_area_lem n in
    let a : area % 2 ^ 32 ≡ area = omega (arith, size, h, m) in
    let b : (n + area) % 2 ^ 32 ≡ n + area = omega (arith, size, h, m) in
    let c : (1 + (n + area)) % 2 ^ 32 ≡ 1 + (n + area) = omega (arith, size, h, m) in
    let bits = ((total + 2 ^ 64 - 1 - (n + area)) % 2 ^ 64 + 512 * 8) / (512 * 8 + 1) in
    let d : bits % 2 ^ 32 ≡ bits = omega (arith, size, h, m) in rw (e, a, b, c, d) refl

super_block_for-Fits : (total n : ℕ) → n < 2 ^ 32 → Fits (super_block_for total n)
unfolding super_block_for super_block_initialize
super_block_for-Fits total n h = (omega arith, h, omega arith)

-- The words of a new volume behind its super block: one bit of the inode bitmap, and the root inode in
-- the first block behind that bitmap.
abbrev pub fresh_word : ℕ → ℕ → ℕ → ℕ
fresh_word inode_bitmap_blocks b i =
    if b == 1 && i == 0 then 1 else if b == 1 + inode_bitmap_blocks && i == 15 then 2 ^ 32 else 0

-- The root inode behind the mark in the inode bitmap.
root_written :
    (device : Device) (n b i : ℕ)
    → 0 < n
    → device b i ≡ (if b == 1 && i == 0 then 1 else 0)
    → write_inode device (1 + n) 0 (inode_initialize directory) b i ≡ fresh_word n b i
root_written device n b i p e = elim (ℕ_discrete b (1 + n)) [
  | yes s ↦ rw s (write_inode-directory device (1 + n) i ∙ ground (arith, p, e, s))
  | no s ↦
      write_inode-other device (1 + n) 0 (inode_initialize directory) b i s ∙ ground (arith, e, s)
]

-- A volume that has room for its inodes is made on any disk: the super block in block 0 describes it;
-- of the words of all its other blocks, only two are not zero, the first one of the inode bitmap, in
-- which only inode 0 is taken, and the one with the type of inode 0; and inode 0 reads as an empty
-- directory, the root. Opening the disk gives the same file system.
pub efs_create_lem :
    (total_blocks inode_bitmap_blocks : ℕ) (disk : Device)
    → 0 < inode_bitmap_blocks
    → 1 + 1025 * inode_bitmap_blocks ≤ total_blocks
    → total_blocks < 2 ^ 32
    → (efs : EasyFileSystem) × (disk' : Device) × (efs_create total_blocks inode_bitmap_blocks disk
        ≡ ok (efs, disk'))
      × (efs_open disk' ≡ ok efs)
      × (read_super_block disk' ≡ super_block_for total_blocks inode_bitmap_blocks)
      × (read_inode disk' (get_inode_block_disk_id efs 0).0 (get_inode_block_disk_id efs 0).1
          ≡ inode_initialize directory)
      × ((b i : ℕ) → 0 < b → b < total_blocks → disk' b i ≡ fresh_word inode_bitmap_blocks b i)
unfolding efs_create get_inode_block_disk_id efs_for
efs_create_lem total n disk p h m =
    let efs = efs_for total n in
    let super = super_block_for total n in
    let cleared = clear_blocks total disk in
    let labelled : Device = write_super_block cleared super in
    let behind : (b i : ℕ) → 0 < b → b < total → labelled b i ≡ 0 =
      λ b i z q. write_super_block-other cleared super b i (omega (arith, z)) ∙ ground (arith, q) in
    let r = alloc_root efs labelled n refl (behind 1 0 (omega arith) (omega (arith, p, h))) p in
    let place : ((1 + n) % 2 ^ 32 + 0) % 2 ^ 32 ≡ 1 + n = omega (arith, h, m) in
    let marked : Device = set_word labelled 1 0 1 in
    let disk' : Device = write_inode marked (1 + n) 0 (inode_initialize directory) in
    let words : (b i : ℕ) → 0 < b → b < total → disk' b i ≡ fresh_word n b i =
      λ b i z q. root_written marked n b i p (ground (arith, behind b i z q)) in
    let kept : (i : ℕ) → disk' 0 i ≡ labelled 0 i = λ i.
      write_inode-other marked (1 + n) 0 (inode_initialize directory) 0 i (omega arith)
      ∙ ground arith in
    let super_kept : read_super_block disk' ≡ super =
      read_super_block-same disk' labelled kept
      ∙ read-write_super_block cleared super (super_block_for-Fits total n (omega (arith, h, m))) in
    (
      efs,
      disk',
      rw (r, place) refl,
      efs_open-for total n disk' h m super_kept,
      super_kept,
      rw place (
          read_inode-directory disk' (1 + n)
            (λ j l. words (1 + n) j (omega arith) (omega (arith, p, h)) ∙ ground (arith, p))),
      words,
    )

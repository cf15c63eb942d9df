-- ===== src/Efs/Resize/Tests.antt =====
-- A file of 27 data blocks that grows over the end of the direct blocks, and is emptied.
use acore.Base.{
  ℕ, zero, suc, ◌+◌, ◌<◌, ◌≤◌, ◌≡◌, refl, min, List, [], ◌∷◌, ◌++◌, Outcome, ok, panic, arith,
  length, replicate, get_or, count,
}
use acore.Efs.Layout.{DiskInode, file, data_blocks, total_blocks}
use acore.Efs.Resize.{Indirect, increase_size, clear_size}
use acore.Efs.Resize.Listing.{file_blocks}
use acore.Efs.Resize.Clear.{clear_size_lem}
use acore.Efs.Resize.Grow.{increase_size_lem}

abbrev empty_file : DiskInode
empty_file = record {
  size = 0;
  direct = replicate 28 0;
  indirect1 = 0;
  indirect2 = 0;
  type_of = file;
}

abbrev zeros : Indirect
zeros b j = 0

-- 600 bytes need two blocks.
two_blocks_once :
    (x : ℕ) → count x (file_blocks (data_blocks 0) empty_file zeros) + count x (7 ∷ 9 ∷ []) ≤ 1
unfolding file_blocks data_blocks
two_blocks_once x = ground arith

two_blocks_up : data_blocks 0 ≤ data_blocks 600
unfolding data_blocks
two_blocks_up = omega arith

two_blocks_fit : data_blocks 600 ≤ 16540
unfolding data_blocks
two_blocks_fit = omega arith

two_blocks_total : total_blocks 0 + 2 ≡ total_blocks 600
unfolding total_blocks
two_blocks_total = refl

increase_size_lem_example :
    (inode' : DiskInode) × (w' : Indirect) × (increase_size empty_file zeros 600 (7 ∷ 9 ∷ [])
      ≡ ok (inode', w', []))
    × (inode'.size ≡ 600)
    × (length inode'.direct ≡ 28)
    × (file_blocks (data_blocks 600) inode' w'
        ≡ file_blocks (data_blocks 0) empty_file zeros ++ (7 ∷ 9 ∷ []))
increase_size_lem_example =
    increase_size_lem empty_file zeros 600 (7 ∷ 9 ∷ []) refl two_blocks_up two_blocks_fit
      two_blocks_once two_blocks_total

-- A file of 29 data blocks: block 40 holds the address of the last one.
abbrev long_file : DiskInode
long_file = record {
  size = 14500;
  direct = replicate 28 5;
  indirect1 = 40;
  indirect2 = 0;
  type_of = file;
}

abbrev one_word : Indirect
one_word b j = b + 1

long_file_fits : data_blocks 14500 ≤ 16540
unfolding data_blocks
long_file_fits = omega arith

clear_size_lem_example :
    (inode' : DiskInode) × (clear_size long_file one_word
      ≡ ok (file_blocks (data_blocks 14500) long_file one_word, inode'))
    × (length (file_blocks (data_blocks 14500) long_file one_word) ≡ total_blocks 14500)
    × (inode'.size ≡ 0)
    × (length inode'.direct ≡ 28)
    × ((i : ℕ) → i < min 28 (data_blocks 14500) → get_or inode'.direct i 0 ≡ 0)
clear_size_lem_example = clear_size_lem long_file one_word refl long_file_fits

-- From 28 data blocks to 158: every kind of block of addresses is taken, each before what it addresses.
abbrev numbers : ℕ → ℕ → List ℕ
numbers zero i = []
numbers (suc n) i = i ∷ numbers n (suc i)

abbrev full_direct : DiskInode
full_direct = record {
  size = 14336;
  direct = numbers 28 100;
  indirect1 = 0;
  indirect2 = 0;
  type_of = file;
}

abbrev listing_after : Outcome (DiskInode × Indirect × List ℕ) → List ℕ
listing_after (ok (inode, w, rest)) = file_blocks 158 inode w ++ rest
listing_after panic = []

grown :
    listing_after (increase_size full_direct zeros 80896 (numbers 133 200))
    ≡ numbers 28 100 ++ numbers 133 200
unfolding increase_size file_blocks data_blocks
grown = refl

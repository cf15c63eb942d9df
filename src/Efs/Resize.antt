-- ===== src/Efs/Resize.antt =====
-- How an inode grows and is emptied: increase_size and clear_size of easy-fs/src/layout.rs. A block is
-- the words at its id, as they read through the block cache.
pub mod Listing
pub mod Clear
pub mod Fill
pub mod Tree
pub mod Second
pub mod Phases
pub mod Last
pub mod Tail
pub mod Grow
mod Tests
use acore.Base.{
  ℕ, zero, suc, ◌+◌, ◌-◌, ◌/◌, ◌%◌, min, max, List, [], ◌∷◌, ◌++◌, ltb, leb, ◌==◌, ◌&&◌, ◌||◌,
  if◌then◌else◌, Outcome, ok, panic, ◌>>=◌, ◌>>◌, assert, set, get_or,
}
use acore.Efs.Layout.{inode_direct_count, inode_indirect1_count, DiskInode, data_blocks}
use acore.Efs.Bitmap.{set_word}

abbrev pub Indirect : Type 0
Indirect = ℕ → ℕ → ℕ

-- `new_blocks.next().unwrap()`, and the iterator after it.
abbrev pub next : List ℕ → Outcome (ℕ × List ℕ)
next [] = panic
next (b ∷ bs) = ok (b, bs)

-- The loop over the direct blocks, over the rounds that are left.
unfoldable pub fill_direct : ℕ → List ℕ → ℕ → List ℕ → Outcome (List ℕ × List ℕ)
fill_direct zero direct current blocks = ok (direct, blocks)
fill_direct (suc left) direct current [] = panic
fill_direct (suc left) direct current (b ∷ bs) =
    fill_direct left (set direct current b) (suc current) bs

-- The loop over the words of the first indirect block.
unfoldable pub fill_indirect : ℕ → Indirect → ℕ → ℕ → List ℕ → Outcome (Indirect × List ℕ)
fill_indirect zero w id current blocks = ok (w, blocks)
fill_indirect (suc left) w id current [] = panic
fill_indirect (suc left) w id current (b ∷ bs) =
    fill_indirect left (set_word w id current b) id (suc current) bs

-- A round of the last loop: at the start of a second-level block, that block too.
unfoldable pub fill_round : Indirect → ℕ → ℕ → ℕ → List ℕ → Outcome (Indirect × List ℕ)
fill_round w indirect2 a0 b0 blocks = do
  assert (ltb a0 inode_indirect1_count)
  (w', blocks') ←
      (if b0 == 0
        then (do (b, bs) ← next blocks; ok (set_word w indirect2 a0 b, bs))
        else ok (w, blocks))
  (b, bs) ← next blocks'
  ok (set_word w' (w' indirect2 a0) b0 b, bs)

-- The last loop, on fuel.
unfoldable pub fill_second : ℕ → Indirect → ℕ → ℕ → ℕ → ℕ → ℕ → List ℕ → Outcome (Indirect × List ℕ)
unfolding fill_round
fill_second zero w indirect2 a0 b0 a1 b1 blocks = panic
fill_second (suc left) w indirect2 a0 b0 a1 b1 blocks =
    let rest = (do
      (w', blocks') ← fill_round w indirect2 a0 b0 blocks
      (let full = suc b0 == inode_indirect1_count in
          fill_second left w' indirect2 (if full then suc a0 else a0) (if full then 0 else suc b0)
            a1 b1 blocks')) in
    if ltb a0 a1 || (a0 == a1 && ltb b0 b1) then rest else ok (w, blocks)

unfoldable pub increase_indirect2 :
    DiskInode → Indirect → ℕ → ℕ → List ℕ → Outcome (DiskInode × Indirect × List ℕ)
unfolding fill_second
increase_indirect2 inode w current_blocks total_blocks blocks = do
  (indirect2, blocks') ←
      (if current_blocks == inode_indirect1_count
        then next blocks
        else ok (inode.indirect2, blocks))
  (let current = current_blocks - inode_indirect1_count in
      let total = total_blocks - inode_indirect1_count in
      do
        (w', blocks'') ←
            fill_second (total - current + 1) w indirect2 (current / inode_indirect1_count)
              (current % inode_indirect1_count) (total / inode_indirect1_count)
              (total % inode_indirect1_count) blocks'
        ok (record inode { indirect2 = indirect2 }, w', blocks''))

unfoldable pub increase_indirect1 :
    DiskInode → Indirect → ℕ → ℕ → List ℕ → Outcome (DiskInode × Indirect × List ℕ)
unfolding fill_indirect increase_indirect2
increase_indirect1 inode w current_blocks total_blocks blocks = do
  (indirect1, blocks') ←
      (if current_blocks == inode_direct_count then next blocks else ok (inode.indirect1, blocks))
  (let current = current_blocks - inode_direct_count in
      let total = total_blocks - inode_direct_count in
      do
        (w', blocks'') ←
            fill_indirect (min inode_indirect1_count total - current) w indirect1 current blocks'
        (let inode' = record inode { indirect1 = indirect1 } in
            let rest =
              increase_indirect2 inode' w' (max current inode_indirect1_count) total blocks'' in
            if leb total inode_indirect1_count then ok (inode', w', blocks'') else rest))

-- The inode, the blocks, and what is left of the new blocks, which the code drops.
unfoldable pub increase_size :
    DiskInode → Indirect → ℕ → List ℕ → Outcome (DiskInode × Indirect × List ℕ)
unfolding fill_direct increase_indirect1
increase_size inode w new_size new_blocks =
    let current = data_blocks inode.size in
    let total = data_blocks new_size in
    do
      (direct, blocks) ←
          fill_direct (min inode_direct_count total - current) inode.direct current new_blocks
      (let inode' = record inode { size = new_size; direct = direct } in
          let rest = increase_indirect1 inode' w (max current inode_direct_count) total blocks in
          if leb total inode_direct_count then ok (inode', w, blocks) else rest)

-- The words of a block that are pushed, one after the other.
abbrev pub push_words : ℕ → (ℕ → ℕ) → ℕ → List ℕ
push_words zero block current = []
push_words (suc left) block current = block current ∷ push_words left block (suc current)

abbrev pub clear_direct : ℕ → List ℕ → ℕ → List ℕ × List ℕ
clear_direct zero direct current = ([], direct)
clear_direct (suc left) direct current =
    let (v, direct') = clear_direct left (set direct current 0) (suc current) in
    (get_or direct current 0 ∷ v, direct')

-- The second-level blocks that are full, from one on.
abbrev pub clear_full : ℕ → Indirect → ℕ → ℕ → List ℕ
clear_full zero w indirect2 a = []
clear_full (suc left) w indirect2 a =
    w indirect2 a
    ∷ (push_words inode_indirect1_count (w (w indirect2 a)) 0
        ++ clear_full left w indirect2 (suc a))

unfoldable pub clear_second : Indirect → ℕ → ℕ → Outcome (List ℕ)
clear_second w indirect2 n =
    let a1 = n / inode_indirect1_count in
    let b1 = n % inode_indirect1_count in
    let full = clear_full (min a1 inode_indirect1_count) w indirect2 0 in
    if ltb 0 b1
    then assert (ltb a1 inode_indirect1_count)
      >> ok (full ++ w indirect2 a1 ∷ push_words b1 (w (w indirect2 a1)) 0)
    else ok full

unfoldable pub clear_size : DiskInode → Indirect → Outcome (List ℕ × DiskInode)
unfolding clear_second
clear_size inode w =
    let n = data_blocks inode.size in
    let (v, direct) = clear_direct (min inode_direct_count n) inode.direct 0 in
    let v1 =
      v
      ++ inode.indirect1
        ∷ push_words (min inode_indirect1_count (n - inode_direct_count)) (w inode.indirect1) 0 in
    let rest = (do
      tail ← clear_second w inode.indirect2 (n - inode_direct_count - inode_indirect1_count)
      ok (
        v1 ++ inode.indirect2 ∷ tail,
        record inode { size = 0; direct = direct; indirect1 = 0; indirect2 = 0 },
      )) in
    if leb n inode_direct_count
    then ok (v, record inode { size = 0; direct = direct })
    else if leb (n - inode_direct_count) inode_indirect1_count
    then ok (v1, record inode { size = 0; direct = direct; indirect1 = 0 })
    else rest

-- ===== src/Buddy/Blocks/Tests.antt =====
-- The allocator with one block of 64 bytes.
use acore.Base.{
  ◌≢◌, ℕ, ◌+◌, ◌*◌, ◌^◌, ◌<◌, ◌≤◌, ◌≡◌, refl, ◌⊎◌, [], ◌∷◌, Option, none, some, Outcome, ok, panic,
  arith,
}
use acore.Buddy.Blocks.{classes, FreeList, empty, set_list, alloc_class, dealloc_class, alloc}
use acore.Buddy.Blocks.Cover.{inside, cover, Aligned, Aligned-set_list, NonNull, NonNull-set_list}
use acore.Buddy.Blocks.Alloc.{alloc_class_lem}
use acore.Buddy.Blocks.Dealloc.{dealloc_class_lem}

abbrev one_block : FreeList
one_block = set_list empty 6 (64 ∷ [])

one_block-Aligned : Aligned one_block
one_block-Aligned = Aligned-set_list empty 6 (64 ∷ []) (λ c. tt) ((1, refl), tt)

one_block-NonNull : NonNull one_block
one_block-NonNull = NonNull-set_list empty 6 (64 ∷ []) (λ c. refl) refl

alloc_class_lem_example :
    ((alloc_class one_block 4 ≡ ok (none, one_block))
      × ((c : ℕ) → 4 ≤ c → c < classes → one_block c ≡ []))
    ⊎ ((block : ℕ) × (lists' : FreeList) × (alloc_class one_block 4 ≡ ok (some block, lists'))
        × ((c : ℕ) × (4 ≤ c) × (c < classes) × (one_block c ≢ []))
        × Aligned lists'
        × NonNull lists'
        × ((q : ℕ) × (block ≡ q * 2 ^ 4))
        × (0 < block)
        × ((a : ℕ) → cover classes one_block a ≡ inside 4 block a + cover classes lists' a))
alloc_class_lem_example = alloc_class_lem one_block 4 one_block-Aligned one_block-NonNull

-- A block at address 0 is not handed out.
null_block : alloc_class (set_list empty 4 (0 ∷ [])) 4 ≡ ok (none, set_list empty 4 (0 ∷ []))
unfolding alloc_class
null_block = refl

-- The buddy of the block at 192 is the free one at 128: both make a block of 128 bytes at 128.
abbrev block_128 : FreeList
block_128 = set_list empty 6 (128 ∷ [])

dealloc_class_lem_example :
    (lists' : FreeList) × (dealloc_class block_128 192 6 ≡ ok lists')
    × Aligned lists'
    × ((a : ℕ) → cover classes lists' a ≡ inside 6 192 a + cover classes block_128 a)
dealloc_class_lem_example =
    dealloc_class_lem block_128 192 6 3 (omega arith) refl
      (Aligned-set_list empty 6 (128 ∷ []) (λ c. tt) ((2, refl), tt)) refl

-- 20 bytes take half of the block, the second one, of 32 bytes.
abbrev result_of : Outcome (Option ℕ × FreeList) → Option ℕ
result_of (ok (r, _)) = r
result_of panic = none

alloc_20 : result_of (alloc one_block 20 8) ≡ some 96
unfolding alloc
alloc_20 = refl

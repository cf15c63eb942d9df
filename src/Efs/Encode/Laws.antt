-- ===== src/Efs/Encode/Laws.antt =====
-- What reads back from the words of a super block and of an inode.
use acore.Base.{
  ℕ, ◌-◌, zero, suc, ◌+◌, ◌*◌, ◌/◌, ◌%◌, ◌^◌, ◌<◌, ◌≤◌, ◌≡◌, ◌≢◌, refl, ap₂, ◌∙◌, [], ◌∷◌, ◌++◌,
  replicate, ltb, ◌==◌, if◌then◌else◌, get_or, arith,
}
use acore.Efs.Layout.{SuperBlock, DiskInode, directory, inode_initialize}
use acore.Efs.Encode.{
  field, fields, read_super_block, write_super_block, inode_words, write_inode, inode_of,
  read_inode,
}
use acore.Efs.Bitmap.{Device}

-- The two fields of a word.
low_field : (a b : ℕ) → a < 2 ^ 32 → (a + 2 ^ 32 * b) % 2 ^ 32 ≡ a
low_field a b h = omega (arith, h)

high_field : (a b : ℕ) → a < 2 ^ 32 → (a + 2 ^ 32 * b) / 2 ^ 32 ≡ b
high_field a b h = omega (arith, h)

-- The fields of a super block fit.
abbrev pub Fits : SuperBlock → Type 0
Fits s = (s.magic < 2 ^ 32) × (s.inode_bitmap_blocks < 2 ^ 32) × (s.data_bitmap_blocks < 2 ^ 32)

pub read-write_super_block :
    (device : Device) (s : SuperBlock) → Fits s → read_super_block (write_super_block device s) ≡ s
unfolding read_super_block write_super_block field
read-write_super_block device s (a, b, c) =
    rw
      (
        low_field s.magic s.total_blocks a,
        high_field s.magic s.total_blocks a,
        low_field s.inode_bitmap_blocks s.inode_area_blocks b,
        high_field s.inode_bitmap_blocks s.inode_area_blocks b,
        low_field s.data_bitmap_blocks s.data_area_blocks c,
        high_field s.data_bitmap_blocks s.data_area_blocks c,
      )
      refl

pub write_super_block-other :
    (device : Device) (s : SuperBlock) (b i : ℕ)
    → b ≢ 0
    → write_super_block device s b i ≡ device b i
unfolding write_super_block
write_super_block-other device s b i h = ground (arith, h)

pub read_super_block-same :
    (device device' : Device)
    → ((i : ℕ) → device 0 i ≡ device' 0 i)
    → read_super_block device ≡ read_super_block device'
unfolding read_super_block field
read_super_block-same device device' h = rw (h 0, h 1, h 2) refl

pub write_inode-other :
    (device : Device) (id offset : ℕ) (inode : DiskInode) (b i : ℕ)
    → b ≢ id
    → write_inode device id offset inode b i ≡ device b i
unfolding write_inode
write_inode-other device id offset inode b i h = ground (arith, h)

-- The words of an empty directory: all are 0 but the last, which holds the type.
last_word : (n x j : ℕ) → get_or (replicate n 0 ++ (x ∷ [])) j 0 ≡ (if j == n then x else 0)
last_word zero x zero = refl
last_word zero x (suc j) = ground arith
last_word (suc n) x zero = ground arith
last_word (suc n) x (suc j) = ground (arith, last_word n x j)

directory_words : inode_words (inode_initialize directory) ≡ replicate 15 0 ++ (2 ^ 32 ∷ [])
unfolding inode_words inode_initialize
directory_words = refl

pub write_inode-directory :
    (device : Device) (id i : ℕ)
    → write_inode device id 0 (inode_initialize directory) id i
      ≡ (if ltb i 16 then (if i == 15 then 2 ^ 32 else 0) else device id i)
unfolding write_inode
write_inode-directory device id i =
    let from_start : i - 0 / 8 ≡ i = omega arith in
    rw (directory_words, from_start, last_word 15 (2 ^ 32) i) (ground arith)

-- Two blocks with the same first 16 words hold the same inode at their start.
field-same :
    (k : ℕ) (block block' : ℕ → ℕ)
    → ((j : ℕ) → j < 16 → block j ≡ block' j)
    → k < 32
    → field block k ≡ field block' k
unfolding field
field-same k block block' same h =
    let here : block (k / 2) ≡ block' (k / 2) = same (k / 2) (omega (arith, h)) in rw here refl

fields-same :
    (n k : ℕ) (block block' : ℕ → ℕ)
    → ((j : ℕ) → j < 16 → block j ≡ block' j)
    → k + n ≤ 32
    → fields n block k ≡ fields n block' k
unfolding fields
fields-same zero k block block' same h = refl
fields-same (suc n) k block block' same h =
    ap₂ (λ x xs. x ∷ xs) (field-same k block block' same (omega (arith, h)))
      (fields-same n (suc k) block block' same (omega (arith, h)))

inode_of-same :
    (block block' : ℕ → ℕ)
    → ((j : ℕ) → j < 16 → block j ≡ block' j)
    → inode_of block 0 ≡ inode_of block' 0
unfolding inode_of
inode_of-same block block' same =
    rw
      (
        field-same 0 block block' same (omega arith),
        fields-same 28 1 block block' same (omega arith),
        field-same 29 block block' same (omega arith),
        field-same 30 block block' same (omega arith),
        field-same 31 block block' same (omega arith),
      )
      refl

directory_read : inode_of (λ j. if j == 15 then 2 ^ 32 else 0) 0 ≡ inode_initialize directory
unfolding inode_of field fields inode_initialize
directory_read = refl

-- Words of an empty directory read as one.
pub read_inode-directory :
    (device : Device) (id : ℕ)
    → ((j : ℕ) → j < 16 → device id j ≡ (if j == 15 then 2 ^ 32 else 0))
    → read_inode device id 0 ≡ inode_initialize directory
unfolding read_inode
read_inode-directory device id h =
    inode_of-same (device id) (λ j. if j == 15 then 2 ^ 32 else 0) h ∙ directory_read

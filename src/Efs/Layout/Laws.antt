-- ===== src/Efs/Layout/Laws.antt =====
-- Addresses of blocks, counts of blocks, and names of directory entries.
use acore.Base.{
  ℕ, suc, ◌+◌, ◌-◌, ◌*◌, ◌/◌, ◌%◌, ◌^◌, ◌<◌, ◌≤◌, ◌≡◌, refl, List, [], ◌∷◌, ◌++◌, true, ltb, ok,
  arith, length, replicate, length-append, length-replicate, get_or, get_elem?-eq-get_or, count,
  Bool-cases, inl, inr,
}
use acore.Efs.Layout.{
  DiskInode, get_disk_id, data_blocks, total_blocks, blocks_num_needed, indirect2_bound, DirEntry,
  dir_entry_new, dir_entry_name, until_zero, is_utf8,
}

-- A block of a file is always found below the bound of the double indirect blocks.
pub get_disk_id_total :
    (inode : DiskInode) (device : ℕ → ℕ → ℕ) (inner_id : ℕ)
    → length inode.direct ≡ 28
    → inner_id < indirect2_bound
    → (id : ℕ) × (get_disk_id inode device inner_id ≡ ok id)
unfolding get_disk_id
get_disk_id_total inode device inner_id h l = elim (Bool-cases (ltb inner_id 28)) [
  | inl e ↦ (
    get_or inode.direct inner_id 0,
    ground (arith, e, get_elem?-eq-get_or inode.direct inner_id 0 (ground (arith, h, e))),
  )
  | inr e ↦ elim (Bool-cases (ltb inner_id 156)) [
    | inl f ↦ (device inode.indirect1 (inner_id - 28), ground (arith, e, f))
    | inr f ↦ (
      device (device inode.indirect2 ((inner_id - 156) / 128)) ((inner_id - 156) % 128),
      ground (arith, e, f, l),
    )
  ]
]

-- Growing an inode never needs fewer than no blocks: the blocks it has and those it needs make the
-- blocks of the new size, data and indirect ones, with no wrap-around below 2 ^ 32 - 511 bytes.
pub blocks_num_needed_lem :
    (inode : DiskInode) (new_size : ℕ)
    → inode.size ≤ new_size
    → new_size + 511 < 2 ^ 32
    → (n : ℕ) × (blocks_num_needed inode new_size ≡ ok n)
      × (total_blocks inode.size + n ≡ total_blocks new_size)
      × (new_size ≤ data_blocks new_size * 512)
unfolding blocks_num_needed total_blocks data_blocks
blocks_num_needed_lem inode new_size h l =
    (total_blocks new_size - total_blocks inode.size, ground arith, ground arith, ground arith)

pub until_zero-append :
    (name : List ℕ) (n : ℕ) → count 0 name ≡ 0 → until_zero (name ++ replicate (suc n) 0) ≡ ok name
until_zero-append [] n h = refl
until_zero-append (b ∷ bs) n h = ground (arith, until_zero-append bs n)

-- A name in UTF-8 of at most 27 bytes, none of them zero, is read back from its directory entry.
pub dir_entry_roundtrip :
    (name : List ℕ) (inode_id : ℕ)
    → length name ≤ 27
    → count 0 name ≡ 0
    → is_utf8 name ≡ true
    → (e : DirEntry) × (dir_entry_new name inode_id ≡ ok e)
      × (dir_entry_name e ≡ ok name)
      × (length e.name ≡ 28)
unfolding dir_entry_new dir_entry_name
dir_entry_roundtrip name inode_id h z utf =
    let padded = name ++ replicate (28 - length name) 0 in
    let padding = 28 - length name in
    let some_zero : padding ≡ suc (27 - length name) = omega (arith, h) in
    (
      record { name = name ++ replicate padding 0; inode_id = inode_id },
      ground (arith, h),
      rw (some_zero, until_zero-append name (27 - length name) z, utf) refl,
      omega (
        arith,
        h,
        length-append {A = ℕ} name (replicate padding 0),
        length-replicate {A = ℕ} padding 0,
      ),
    )

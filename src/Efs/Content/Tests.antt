-- ===== src/Efs/Content/Tests.antt =====
-- A file of 600 bytes in the blocks 10 and 11.
use acore.Base.{ℕ, zero, suc, ◌+◌, ◌-◌, ◌<◌, ◌≡◌, refl, min, [], ◌∷◌, ok, arith, get_or, replicate}
use acore.Efs.Layout.{DiskInode, file, get_disk_id}
use acore.Efs.Content.{Device, words, read_at, write_at}
use acore.Efs.Content.Read.{read_bytes, read_at-eq-read_bytes}
use acore.Efs.Content.Place.{IsLaid, IsWritten}
use acore.Efs.Content.Write.{write_at_lem}
use acore.Efs.Content.Roundtrip.{write_read_roundtrip}

abbrev two_blocks : DiskInode
two_blocks = record {
  size = 600;
  direct = 10 ∷ 11 ∷ replicate 26 0;
  indirect1 = 0;
  indirect2 = 0;
  type_of = file;
}

abbrev zeros : Device
zeros b j = 0

abbrev block_ids : ℕ → ℕ
block_ids i = 10 + i

two_blocks-found : (i : ℕ) → i < 2 → get_disk_id two_blocks (words zeros) i ≡ ok (block_ids i)
unfolding get_disk_id
two_blocks-found zero h = refl
two_blocks-found (suc zero) h = refl
two_blocks-found (suc (suc i)) h = absurd (omega (arith, h))

two_blocks-IsLaid : IsLaid two_blocks 2 block_ids zeros
two_blocks-IsLaid = record {
  found = two_blocks-found;
  apart = λ i j p q e. omega (arith, e);
  not_indirect1 = λ i p e. absurd (omega (arith, e));
  not_indirect2 = λ i p e. absurd (omega (arith, e));
  not_second = λ i j p e. absurd (omega (arith, e));
}

read_at-eq-read_bytes_example :
    read_at two_blocks zeros 500 200 ≡ read_bytes (min (500 + 200) 600 - 500) two_blocks zeros 500
read_at-eq-read_bytes_example = read_at-eq-read_bytes two_blocks zeros 500 200 (omega arith)

-- The three bytes stand at the end of block 10 and at the start of block 11.
write_at_lem_example :
    (device' : Device) × (write_at two_blocks zeros 510 (7 ∷ 8 ∷ 9 ∷ [])
      ≡ ok (min (510 + 3) 600 - 510, device'))
    × IsWritten 2 block_ids zeros device' 510 (min (510 + 3) 600) (λ i. get_or (7 ∷ 8 ∷ 9 ∷ []) i 0)
    × IsLaid two_blocks 2 block_ids device'
write_at_lem_example =
    write_at_lem two_blocks 2 block_ids zeros 510 (7 ∷ 8 ∷ 9 ∷ []) two_blocks-IsLaid (omega arith)
      (omega arith) (omega arith) (omega arith) (omega arith)

write_read_roundtrip_example :
    (device' : Device) × (write_at two_blocks zeros 510 (7 ∷ 8 ∷ 9 ∷ []) ≡ ok (3, device'))
    × (read_at two_blocks device' 510 3 ≡ ok (7 ∷ 8 ∷ 9 ∷ []))
write_read_roundtrip_example =
    write_read_roundtrip two_blocks 2 block_ids zeros 510 (7 ∷ 8 ∷ 9 ∷ []) two_blocks-IsLaid
      (omega arith) (omega arith) (omega arith) (omega arith)

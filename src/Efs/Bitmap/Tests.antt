-- ===== src/Efs/Bitmap/Tests.antt =====
-- A bitmap at a concrete device.
use acore.Base.{ℕ, ◌<◌, ◌≡◌, ◌≢◌, refl, ◌⊎◌, none, some, arith, ◌==◌, if◌then◌else◌}
use acore.Efs.Bitmap.{Bitmap, Device, bitmap_alloc, max_allocatable_blocks}
use acore.Efs.Bitmap.Laws.{bit_at, bitmap_alloc_fresh}

-- One block of bits, of which the first three are taken.
abbrev bits : Bitmap
bits = record { start_disk_id = 5; blocks = 1 }

abbrev three_taken : Device
three_taken block i = if block == 5 then (if i == 0 then 7 else 0) else 0

bitmap_alloc_fresh_example :
    (bitmap_alloc bits three_taken ≡ (none, three_taken))
    ⊎ ((bit : ℕ) × (device' : Device) × (bitmap_alloc bits three_taken ≡ (some bit, device'))
        × (bit < max_allocatable_blocks bits)
        × (bit_at bits three_taken bit ≡ 0)
        × (bit_at bits device' bit ≡ 1)
        × ((j : ℕ) → j ≢ bit → bit_at bits device' j ≡ bit_at bits three_taken j))
bitmap_alloc_fresh_example = bitmap_alloc_fresh bits three_taken λ block i. ground arith

first_free_bit : (bitmap_alloc bits three_taken).0 ≡ some 3
unfolding bitmap_alloc
first_free_bit = refl

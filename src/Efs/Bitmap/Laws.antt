-- ===== src/Efs/Bitmap/Laws.antt =====
-- The bit that alloc returns was free, and nothing but this bit changes.
use Prim.Native.Nat.{bit_or}
use acore.Base.{
  ℕ, zero, suc, ◌+◌, ◌*◌, ◌/◌, ◌%◌, ◌^◌, ◌<◌, ◌≤◌, ◌≡◌, ◌≢◌, refl, ◌⊎◌, inl, inr, none, some,
  Bool-cases, Option-cases, arith, ◌==◌,
}
use acore.Base.Word.Flags.{digit, digit-or, digit-pow}
use acore.Base.Word.Digits.{twice_pow}
use acore.Efs.Bitmap.{
  Bitmap, Device, all_ones, block_bits, trailing_ones, find_word, alloc_from, bitmap_alloc,
  set_word, max_allocatable_blocks,
}

-- A bit of a bitmap.
abbrev pub bit_at : Bitmap → Device → ℕ → ℕ
bit_at b device bit =
    digit (bit % 64) (device (bit / block_bits + b.start_disk_id) (bit % block_bits / 64))

-- The bit behind the trailing ones is zero.
trailing_ones-lem :
    (left word : ℕ) → trailing_ones left word < left → digit (trailing_ones left word) word ≡ 0
trailing_ones-lem zero word h = absurd (omega arith)
trailing_ones-lem (suc left) word h = elim (Bool-cases (word % 2 == 1)) [
  | inl e ↦ rw (e, trailing_ones) (trailing_ones-lem left (word / 2) (ground (arith, e)))
  | inr e ↦ rw (e, trailing_ones) (ground (arith, e))
]

-- Only a word that ends in ones at all places has no other bit.
trailing_ones-cases :
    (left word : ℕ) → (trailing_ones left word < left) ⊎ ((q : ℕ) × (suc word ≡ q * 2 ^ left))
trailing_ones-cases zero word = inr (suc word, omega arith)
trailing_ones-cases (suc left) word = elim (Bool-cases (word % 2 == 1)) [
  | inr e ↦ inl (rw (e, trailing_ones) (omega arith))
  | inl e ↦ elim (trailing_ones-cases left (word / 2)) [
    | inl h ↦ inl (rw (e, trailing_ones) (omega (arith, h)))
    | inr (q, h) ↦ inr (q, ground (arith, e, h, twice_pow q left))
  ]
]

trailing_ones-lt : (word : ℕ) → word < 2 ^ 64 → word ≢ all_ones → trailing_ones 64 word < 64
trailing_ones-lt word h n = elim (trailing_ones-cases 64 word) [
  | inl l ↦ l
  | inr (q, e) ↦ absurd (n (omega (arith, e, h)))
]

find_word-lem :
    (left : ℕ) (block : ℕ → ℕ) (i n : ℕ)
    → find_word left block i ≡ some n
    → (i ≤ n) × (n < i + left) × (block n ≢ all_ones)
find_word-lem zero block i n e = absurd (ground arith)
find_word-lem (suc left) block i n e = elim (Bool-cases (block i == all_ones)) [
  | inl f ↦ ground (arith, find_word-lem left block (suc i) n, f, e)
  | inr f ↦ ground (arith, f, e)
]

-- What a call that finds a bit did: the bit's place, where it was zero, is set.
pub record Allocated (start pos left : ℕ) (device : Device) (bit : ℕ) (device' : Device)
    : Type 0 where
  pub block_pos : ℕ
  pub i : ℕ
  pub inner : ℕ
  pub in_range : (pos ≤ block_pos) × (block_pos < pos + left) × (i < 64) × (inner < 64)
  pub bit_eq : bit ≡ block_pos * block_bits + i * 64 + inner
  pub was_free : digit inner (device (block_pos + start) i) ≡ 0
  pub written :
      device'
      ≡ set_word device (block_pos + start) i (bit_or (device (block_pos + start) i) (2 ^ inner))

alloc_from-cases :
    (left start pos : ℕ) (device : Device)
    → ((b i : ℕ) → device b i < 2 ^ 64)
    → (alloc_from left start pos device ≡ (none, device))
      ⊎ ((bit : ℕ) × (device' : Device) × (alloc_from left start pos device ≡ (some bit, device'))
          × Allocated start pos left device bit device')
alloc_from-cases zero start pos device h = inl refl
alloc_from-cases (suc left) start pos device h =
    elim (Option-cases (find_word 64 (device (pos + start)) 0)) [
      | inr (i, e) ↦
          let (p, l, n) = find_word-lem 64 (device (pos + start)) 0 i e in
          let word = device (pos + start) i in
          let inner = trailing_ones 64 word in
          let k = trailing_ones-lt word (h (pos + start) i) n in
          inr (
            pos * block_bits + i * 64 + inner,
            set_word device (pos + start) i (bit_or word (2 ^ inner)),
            rw (e, alloc_from) refl,
            record {
              block_pos = pos;
              i = i;
              inner = inner;
              in_range = (omega arith, omega arith, omega (arith, l), k);
              bit_eq = refl;
              was_free = trailing_ones-lem 64 word k;
              written = refl;
            },
          )
      | inl e ↦ elim (alloc_from-cases left start (suc pos) device h) [
        | inl n ↦ inl (rw (e, n, alloc_from) refl)
        | inr (bit, device', t, a) ↦ inr (
          bit,
          device',
          rw (e, t, alloc_from) refl,
          record {
            block_pos = a.block_pos;
            i = a.i;
            inner = a.inner;
            in_range =
                (omega (arith, a.in_range), omega (arith, a.in_range), a.in_range.2, a.in_range.3);
            bit_eq = a.bit_eq;
            was_free = a.was_free;
            written = a.written;
          },
        )
      ]
    ]

set_here :
    (b : Bitmap) (device : Device) {start pos left bit : ℕ} {device' : Device}
    (a : Allocated start pos left device bit device')
    → digit a.inner (
        set_word device
          (a.block_pos + start)
          a.i
          (bit_or (device (a.block_pos + start) a.i) (2 ^ a.inner))
          (a.block_pos + start)
          a.i)
      ≡ 1
set_here b device {start = start} a = ground (
  arith,
  a.was_free,
  digit-or a.inner (device (a.block_pos + start) a.i) (2 ^ a.inner),
  digit-pow a.inner a.inner,
)

set_elsewhere :
    (b : Bitmap) (device : Device) (bit : ℕ) (device' : Device) {left : ℕ}
    → Allocated b.start_disk_id 0 left device bit device'
    → (j : ℕ) → j ≢ bit
    → bit_at b device' j ≡ bit_at b device j
set_elsewhere b device bit device' a j n =
    let word = device (a.block_pos + b.start_disk_id) a.i in
    rw a.written (
      ground (
        arith,
        n,
        a.bit_eq,
        a.in_range,
        digit-or (j % 64) word (2 ^ a.inner),
        digit-pow (j % 64) a.inner,
      ))

-- A bit that is allocated is inside the bitmap and was zero; afterwards it is one, and every
-- other bit is as it was.
pub bitmap_alloc_fresh :
    (b : Bitmap) (device : Device)
    → ((block i : ℕ) → device block i < 2 ^ 64)
    → (bitmap_alloc b device ≡ (none, device))
      ⊎ ((bit : ℕ) × (device' : Device) × (bitmap_alloc b device ≡ (some bit, device'))
          × (bit < max_allocatable_blocks b)
          × (bit_at b device bit ≡ 0)
          × (bit_at b device' bit ≡ 1)
          × ((j : ℕ) → j ≢ bit → bit_at b device' j ≡ bit_at b device j))
unfolding bitmap_alloc max_allocatable_blocks
bitmap_alloc_fresh b device h = elim (alloc_from-cases b.blocks b.start_disk_id 0 device h) [
  | inl e ↦ inl e
  | inr (bit, device', e, a) ↦
      let here : (bit / block_bits ≡ a.block_pos)
          × (bit % block_bits / 64 ≡ a.i)
          × (bit % 64 ≡ a.inner) =
        (
          omega (arith, a.bit_eq, a.in_range),
          omega (arith, a.bit_eq, a.in_range),
          omega (arith, a.bit_eq, a.in_range),
        ) in
      inr (
        bit,
        device',
        e,
        omega (arith, a.bit_eq, a.in_range),
        rw (here.0, here.1, here.2) a.was_free,
        rw (a.written, here.0, here.1, here.2) (set_here b device a),
        set_elsewhere b device bit device' a,
      )
]

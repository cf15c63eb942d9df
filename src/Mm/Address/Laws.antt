-- ===== src/Mm/Address/Laws.antt =====
-- Conversions between addresses and page numbers lose nothing but what they are meant to drop.
use acore.Base.{
  ℕ, zero, suc, ◌+◌, ◌-◌, ◌*◌, ◌/◌, ◌%◌, ◌≤◌, ◌<◌, ◌^◌, ◌≡◌, ◌⊎◌, inl, inr, List, [], ◌∷◌, ok,
  panic, some, arith,
}
use acore.Base.Word.{usize_mod}
use acore.Base.Word.Digits.{or_split, and_mask, or-zero}
use native.Mathlib.Decide.{dec_lt}
use acore.Mm.Address.{
  page_size, phys_addr_from, ppn_from, virt_addr_from, vpn_from, virt_addr_to_usize, page_offset,
  floor, ceil, page_num_of_addr, addr_of_page_num, indexes, SimpleRange, simple_range, collect,
}

-- The conversions keep the low 56, 44, 39 and 27 bits of any 64-bit word.
pub conversions_truncate :
    (v : ℕ)
    → (phys_addr_from v ≡ v % 2 ^ 56)
      × (ppn_from v ≡ v % 2 ^ 44)
      × (virt_addr_from v ≡ v % 2 ^ 39)
      × (vpn_from v ≡ v % 2 ^ 27)
unfolding phys_addr_from ppn_from virt_addr_from vpn_from
conversions_truncate v = (omega arith, omega arith, omega arith, omega arith)

-- An address is its page and its offset within the page.
pub floor-page_offset :
    (a : ℕ) → (floor a * page_size + page_offset a ≡ a) × (page_offset a < page_size)
unfolding floor page_offset
floor-page_offset a = (omega arith, omega arith)

-- `ceil` is the first page boundary at or above an address that is not within the last page of
-- the 64-bit range.
pub ceil_bounds :
    (a : ℕ)
    → a + page_size < usize_mod
    → (a ≤ ceil a * page_size) × (ceil a * page_size < a + page_size)
unfolding ceil
ceil_bounds a h = (omega arith, omega arith)

-- Page number to address and back is the identity on the page numbers that fit 52 bits, and never panics.
pub page_num-addr_roundtrip : (n : ℕ) → n < 2 ^ 52 → page_num_of_addr (addr_of_page_num n) ≡ ok n
unfolding page_num_of_addr addr_of_page_num
page_num-addr_roundtrip n h = ground arith

-- The indexes are the three nine-bit fields of the page number.
pub indexes_eq : (vpn : ℕ) → indexes vpn ≡ vpn / 2 ^ 18 % 512 ∷ vpn / 2 ^ 9 % 512 ∷ vpn % 512 ∷ []
unfolding indexes
indexes_eq vpn =
    ground (arith, and_mask 9 vpn, and_mask 9 (vpn / 2 ^ 9), and_mask 9 (vpn / 2 ^ 9 / 2 ^ 9))

-- The three table indexes of a 27-bit page number are below 512, and give the number back.
pub indexes_roundtrip :
    (vpn : ℕ)
    → vpn < 2 ^ 27
    → (i j k : ℕ) × (indexes vpn ≡ i ∷ j ∷ k ∷ [])
      × (i < 512)
      × (j < 512)
      × (k < 512)
      × ((i * 512 + j) * 512 + k ≡ vpn)
indexes_roundtrip vpn h = (
  vpn / 2 ^ 18 % 512,
  vpn / 2 ^ 9 % 512,
  vpn % 512,
  indexes_eq vpn,
  omega arith,
  omega arith,
  omega arith,
  omega arith,
)

-- A canonical address (bits 38 to 63 alike) survives the way through a 39-bit `VirtAddr`.
pub virt_addr_roundtrip :
    (v : ℕ)
    → (v < 2 ^ 38) ⊎ ((usize_mod - 2 ^ 38 ≤ v) × (v < usize_mod))
    → virt_addr_to_usize (virt_addr_from v) ≡ v
unfolding virt_addr_to_usize virt_addr_from
virt_addr_roundtrip v (inl h) = ground arith
virt_addr_roundtrip v (inr h) =
    ground (arith, or_split 38 1 (2 ^ 26 - 1) (v % 2 ^ 38) 0, or-zero (v % 2 ^ 38), low)
  where
    low : v % 2 ^ 39 ≡ 1 * 2 ^ 38 + v % 2 ^ 38
    low = omega arith

-- The page numbers from `l` on, `n` of them.
abbrev pub count_up : ℕ → ℕ → List ℕ
count_up l zero = []
count_up l (suc n) = l ∷ count_up (l + 1) n

collect-count_up :
    (n l r : ℕ)
    → l + n ≡ r
    → r < usize_mod
    → collect (suc n) (record { l = l; r = r }) ≡ some (count_up l n)
unfolding collect
collect-count_up zero l r e h = ground arith
collect-count_up (suc n) l r e h = ground (arith, collect-count_up n (l + 1) r)

-- `SimpleRange::new` refuses exactly the ranges that end before they start; any other range is
-- iterated from its start up to its end, the end left out, in that many steps and one more.
pub simple_range-collect :
    (l r : ℕ)
    → r < usize_mod
    → ((r < l) × (simple_range l r ≡ panic))
      ⊎ ((it : SimpleRange) × (simple_range l r ≡ ok it)
          × (collect (suc (r - l)) it ≡ some (count_up l (r - l))))
unfolding simple_range
simple_range-collect l r h = elim (dec_lt r l) [
  | yes p ↦ inl (p, ground arith)
  | no p ↦ inr (record { l = l; r = r }, ground arith, collect-count_up (r - l) l r (omega arith) h)
]

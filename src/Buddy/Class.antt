-- ===== src/Buddy/Class.antt =====
-- The class that serves a layout: size_for and class_for of Buddy/Blocks.
mod Tests
use acore.Base.{
  ℕ, zero, suc, ◌+◌, ◌-◌, ◌*◌, ◌^◌, ◌<◌, ◌≤◌, ◌≡◌, ◌⊎◌, inl, inr, refl, sym, ap, ap₂, ◌∙◌, max, leb,
  arith, Bool-cases, ltb,
}
use acore.Buddy.Blocks.{next_power_of_two, trailing_zeros, size_for, class_for}
use acore.Buddy.Init.Powers.{power_lem, trailing_zeros-pow, pow_le, pow_sum}

larger :
    (a b : ℕ) → (c : ℕ) × (max (2 ^ a) (2 ^ b) ≡ 2 ^ c) × (a ≤ c) × (b ≤ c) × ((c ≡ a) ⊎ (c ≡ b))
larger a b = elim (Bool-cases (leb a b)) [
  | inl e ↦
      (b, omega (arith, pow_le a b (ground (arith, e))), ground (arith, e), omega arith, inr refl)
  | inr e ↦
      (a, omega (arith, pow_le b a (ground (arith, e))), omega arith, ground (arith, e), inl refl)
]

below_31 : (i size : ℕ) → 2 ^ i < size → size ≤ 2 ^ 31 → i < 31
below_31 i size h m = elim (Bool-cases (ltb i 31)) [
  | inl e ↦ ground (arith, e)
  | inr e ↦ absurd (omega (arith, h, m, pow_le 31 i (ground (arith, e))))
]

next_power_lem :
    (size : ℕ)
    → size ≤ 2 ^ 31
    → (a : ℕ) × (next_power_of_two size ≡ 2 ^ a) × (size ≤ 2 ^ a) × (a < 32)
next_power_lem size h =
    let (a, r, up, low) = power_lem 63 0 size (omega (arith, h)) in
    (
      a,
      r,
      up,
      elim low [ inl z ↦ omega (arith, z) | inr (i, f, l) ↦ omega (arith, f, below_31 i size l h) ],
    )

class_of :
    (size k c : ℕ)
    → max (next_power_of_two size) (max (2 ^ k) 8) ≡ 2 ^ c
    → c < 32
    → class_for size (2 ^ k) ≡ c
unfolding class_for size_for
class_of size k c e h = ap (trailing_zeros 64) e ∙ trailing_zeros-pow 64 c (omega (arith, h))

served :
    (size k c d : ℕ)
    → d ≡ c
    → c < 32
    → size ≤ 2 ^ c
    → k ≤ c
    → (d < 32) × (size ≤ 2 ^ d) × ((q : ℕ) × (2 ^ d ≡ q * 2 ^ k))
served size k c d e h m l =
    let whole : c - k + k ≡ d = omega (arith, e, l) in
    (
      omega (arith, e, h),
      omega (arith, m, ap (λ x. 2 ^ x) e),
      (2 ^ (c - k), sym (ap (λ x. 2 ^ x) whole) ∙ pow_sum (c - k) k),
    )

-- A layout of at most 2 ^ 31 bytes, with an alignment that is a power of two below 2 ^ 32, gets a class
-- whose blocks are not smaller than it, and whose size the alignment divides.
pub class_for_lem :
    (size k : ℕ)
    → size ≤ 2 ^ 31
    → k < 32
    → (class_for size (2 ^ k) < 32)
      × (size ≤ 2 ^ class_for size (2 ^ k))
      × ((q : ℕ) × (2 ^ class_for size (2 ^ k) ≡ q * 2 ^ k))
class_for_lem size k h m =
    let (a, r, up, small) = next_power_lem size h in
    let (b, s, le_k, le_3, one) = larger k 3 in
    let (c, t, le_a, le_b, two) = larger a b in
    let fits : c < 32 = ground (arith, one, two, small, m) in
    let e = class_of size k c (ap₂ max r s ∙ t) fits in
    served size k c (class_for size (2 ^ k)) e fits (omega (arith, up, pow_le a c le_a))
      (omega (arith, le_k, le_b))

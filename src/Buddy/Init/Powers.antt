-- ===== src/Buddy/Init/Powers.antt =====
-- Powers of two: the lowest bit of a number, and the largest power that is not above it.
use Prim.Native.Nat.{bit_and}
use native.Mathlib.Nat.{pow-suc}
use acore.Base.{
  ℕ, zero, suc, ◌+◌, ◌-◌, ◌*◌, ◌/◌, ◌%◌, ◌^◌, ◌<◌, ◌≤◌, ◌≡◌, ◌⊎◌, inl, inr, refl, sym, ap, ap₂, ◌∙◌,
  min, ltb, leb, ◌==◌, true, arith, Bool-cases,
}
use acore.Base.Word.Digits.{and_digit, twice_pow, zero-and}
use acore.Buddy.Blocks.{trailing_zeros, power_from, next_power_of_two}
use acore.Buddy.Init.{prev_power_of_two, low_bit, block_size}

-- A number and the ones that it lacks share no bit.
and-rest : (k a : ℕ) → a < 2 ^ k → bit_and a (2 ^ k - 1 - a) ≡ 0
and-rest zero a h = let z : a ≡ 0 = omega (arith, h) in rw z (zero-and 0)
and-rest (suc k) a h =
    let two = pow-suc 2 k in
    let rest : (2 ^ suc k - 1 - a) / 2 ≡ 2 ^ k - 1 - a / 2 = omega (arith, two, h) in
    let bit : (2 ^ suc k - 1 - a) % 2 ≡ 1 - a % 2 = omega (arith, two, h) in
    and_digit a (2 ^ suc k - 1 - a)
    ∙ rw (rest, bit, and-rest k (a / 2) (omega (arith, two, h))) (omega arith)

-- The lowest bit of a number is a power of two that divides it.
low_bit_of :
    (k s : ℕ) → 0 < s → s < 2 ^ k → (l q : ℕ) × (bit_and s (2 ^ k - s) ≡ 2 ^ l) × (s ≡ q * 2 ^ l)
low_bit_of zero s p h = absurd (omega (arith, p, h))
low_bit_of (suc k) s p h =
    let two = pow-suc 2 k in
    elim (Bool-cases (s % 2 == 0)) [
      | inl e ↦
          let even : s % 2 ≡ 0 = ground (arith, e) in
          let (l, q, b, m) =
            low_bit_of k (s / 2) (omega (arith, even, p)) (omega (arith, two, h)) in
          let half : (2 ^ suc k - s) / 2 ≡ 2 ^ k - s / 2 = omega (arith, two, even) in
          let bit : (2 ^ suc k - s) % 2 ≡ 0 = omega (arith, two, even) in
          (
            suc l,
            q,
            and_digit s (2 ^ suc k - s) ∙ rw (half, bit, even, b) (omega (arith, pow-suc 2 l)),
            omega (arith, even, m, twice_pow q l),
          )
      | inr e ↦
          let odd : s % 2 ≡ 1 = ground (arith, e) in
          let half : (2 ^ suc k - s) / 2 ≡ 2 ^ k - 1 - s / 2 = omega (arith, two, odd, h) in
          let bit : (2 ^ suc k - s) % 2 ≡ 1 = omega (arith, two, odd, h) in
          (
            0,
            s,
            and_digit s (2 ^ suc k - s)
                ∙ rw (half, bit, odd, and-rest k (s / 2) (omega (arith, two, h))) refl,
            omega arith,
          )
    ]

pub pow_sum : (a b : ℕ) → 2 ^ (a + b) ≡ 2 ^ a * 2 ^ b
pow_sum a zero = let e : a + 0 ≡ a = omega arith in rw e (omega arith)
pow_sum a (suc b) =
    let e : a + suc b ≡ suc (a + b) = omega arith in
    rw e (omega (arith, pow-suc 2 (a + b), pow_sum a b, twice_pow (2 ^ a) b))

pub pow_le : (a b : ℕ) → a ≤ b → 2 ^ a ≤ 2 ^ b
pow_le a zero h = let z : a ≡ 0 = omega (arith, h) in rw z (omega arith)
pow_le a (suc b) h = elim (Bool-cases (leb a b)) [
  | inl e ↦ omega (arith, pow_le a b (ground (arith, e)), pow-suc 2 b)
  | inr e ↦ let same : a ≡ suc b = ground (arith, e, h) in rw same (omega arith)
]

pow_lt_class : (c n : ℕ) → 2 ^ c ≤ n → n < 2 ^ 32 → c < 32
pow_lt_class c n h m = elim (Bool-cases (ltb c 32)) [
  | inl e ↦ ground (arith, e)
  | inr e ↦ absurd (omega (arith, h, m, pow_le 32 c (ground (arith, e))))
]

-- The search for the next power of two, from one on.
pub power_lem :
    (left j n : ℕ)
    → n ≤ 2 ^ (j + left)
    → (k : ℕ) × (power_from left (2 ^ j) n ≡ 2 ^ k)
      × (n ≤ 2 ^ k)
      × ((k ≡ j) ⊎ ((i : ℕ) × (k ≡ suc i) × (2 ^ i < n)))
power_lem zero j n h = let e : j + 0 ≡ j = omega arith in (j, refl, rw e at h, inl refl)
power_lem (suc left) j n h = elim (Bool-cases (leb n (2 ^ j))) [
  | inl e ↦ (j, rw e refl, ground (arith, e), inl refl)
  | inr e ↦
      let next : 2 * 2 ^ j ≡ 2 ^ suc j = omega (arith, pow-suc 2 j) in
      let s : j + suc left ≡ suc j + left = omega arith in
      let (k, r, up, low) = power_lem left (suc j) n (rw s at h) in
      (k, rw (e, next) r, up, inr (elim low [ inl f ↦ (j, f, ground (arith, e)) | inr w ↦ w ]))
]

prev_power_of :
    (n k : ℕ)
    → 0 < n
    → next_power_of_two n ≡ 2 ^ k
    → n ≤ 2 ^ k
    → (k ≡ 0) ⊎ ((i : ℕ) × (k ≡ suc i) × (2 ^ i < n))
    → (j : ℕ) × (prev_power_of_two n ≡ 2 ^ j) × (2 ^ j ≤ n)
unfolding prev_power_of_two
prev_power_of n k p r up (inl z) =
    let one : 2 ^ k ≡ 1 = ap (λ x. 2 ^ x) z in
    let same : (n == 1) ≡ true = ground (arith, one, p, up) in
    (0, rw (r, one, same) refl, omega (arith, p))
prev_power_of n k p r up (inr (i, f, l)) = elim (Bool-cases (n == 2 ^ k)) [
  | inl e ↦ (k, rw (r, e) refl, let same : n ≡ 2 ^ k = ground (arith, e) in omega (arith, same))
  | inr e ↦
      let half : 2 ^ k / 2 ≡ 2 ^ i = omega (arith, ap (λ x. 2 ^ x) f, pow-suc 2 i) in
      (i, rw (r, e, half) refl, omega (arith, l))
]

prev_power_lem :
    (n : ℕ) → 0 < n → n < 2 ^ 32 → (k : ℕ) × (prev_power_of_two n ≡ 2 ^ k) × (2 ^ k ≤ n)
prev_power_lem n p h =
    let (k, r, up, low) = power_lem 63 0 n (omega (arith, h)) in prev_power_of n k p r up low

pub trailing_zeros-pow : (left c : ℕ) → c < left → trailing_zeros left (2 ^ c) ≡ c
trailing_zeros-pow zero c h = absurd (omega (arith, h))
trailing_zeros-pow (suc left) zero h = refl
trailing_zeros-pow (suc left) (suc c) h =
    let even : (2 ^ suc c % 2 == 0) ≡ true = ground (arith, pow-suc 2 c) in
    let half : 2 ^ suc c / 2 ≡ 2 ^ c = omega (arith, pow-suc 2 c) in
    rw (even, half, trailing_zeros-pow left c (omega (arith, h))) refl

-- The smaller of two powers divides what the one divides, and is not above the other.
smaller :
    (l k q : ℕ)
    → (c r : ℕ) × (min (2 ^ l) (2 ^ k) ≡ 2 ^ c) × (q * 2 ^ l ≡ r * 2 ^ c) × (2 ^ c ≤ 2 ^ k)
smaller l k q = elim (Bool-cases (leb k l)) [
  | inl e ↦
      let d : k + (l - k) ≡ l = ground (arith, e) in
      let sum = sym (ap (λ x. 2 ^ x) d) ∙ pow_sum k (l - k) in
      (
        k,
        q * 2 ^ (l - k),
        omega (arith, pow_le k l (ground (arith, e))),
        grind (arith, sum),
        omega arith,
      )
  | inr e ↦ let below = pow_le l k (ground (arith, e)) in (l, q, omega (arith, below), refl, below)
]

-- The size of the next block is a power of two of a class, which divides the address and fits.
pub block_size_lem :
    (start end : ℕ)
    → 0 < start
    → start < end
    → end < 2 ^ 64
    → end - start < 2 ^ 32
    → (c q : ℕ) × (block_size start end ≡ 2 ^ c)
      × (trailing_zeros 64 (block_size start end) ≡ c)
      × (c < 32)
      × (start ≡ q * 2 ^ c)
      × (start + 2 ^ c ≤ end)
unfolding block_size low_bit
block_size_lem start end p h m n =
    let w : (2 ^ 64 - start) % 2 ^ 64 ≡ 2 ^ 64 - start = omega (arith, p) in
    let (l, q, b, d) = low_bit_of 64 start p (omega (arith, h, m)) in
    let (k, r, up) = prev_power_lem (end - start) (omega (arith, h)) n in
    let (c, s, e, f, g) = smaller l k q in
    let small = pow_lt_class c (end - start) (omega (arith, g, up)) n in
    let size : min (bit_and start ((2 ^ 64 - start) % 2 ^ 64)) (prev_power_of_two (end - start))
        ≡ 2 ^ c =
      ap₂ min (ap (bit_and start) w ∙ b) r ∙ e in
    (
      c,
      s,
      size,
      ap (trailing_zeros 64) size ∙ trailing_zeros-pow 64 c (omega (arith, small)),
      small,
      d ∙ f,
      omega (arith, g, up, h),
    )

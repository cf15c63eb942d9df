-- ===== src/Buddy/Blocks/Merge.antt =====
-- What dealloc frees: merging a block with its buddy changes no free address.
use Prim.Native.Nat.{bit_xor, differ}
use native.Mathlib.Nat.{one-le-pow}
use acore.Base.{
  ℕ, zero, suc, ◌+◌, ◌-◌, ◌*◌, ◌/◌, ◌%◌, ◌^◌, ◌<◌, ◌≡◌, ◌≢◌, refl, ap, ◌∙◌, ◌⊎◌, inl, inr, List, [],
  ◌∷◌, true, ◌==◌, min, contains, erase, arith, Bool-cases,
}
use acore.Base.Word.Digits.{xor_digit, xor-zero, xor_split, twice_pow}
use acore.Buddy.Blocks.Cover.{inside, covers, Multiples, halves}

differ_one : (d : ℕ) → d < 2 → differ d 1 ≡ 1 - d
differ_one zero h = refl
differ_one (suc zero) h = refl
differ_one (suc (suc d)) h = absurd (omega arith)

xor_one : (q : ℕ) → bit_xor q 1 ≡ q / 2 * 2 + (1 - q % 2)
xor_one q = ground (arith, xor_digit q 1, xor-zero (q / 2), differ_one (q % 2))

buddy_eq : (q k : ℕ) → bit_xor (q * 2 ^ k) (2 ^ k) ≡ bit_xor q 1 * 2 ^ k
buddy_eq q k = ground (arith, xor_split k q 1 0 0, one-le-pow k 2, xor-zero 0)

even_times : (h k : ℕ) → h * 2 * 2 ^ k ≡ h * 2 ^ suc k
even_times h k = grind (arith, twice_pow h k)

odd_times : (h k : ℕ) → suc (h * 2) * 2 ^ k ≡ h * 2 ^ suc k + 2 ^ k
odd_times h k = grind (arith, twice_pow h k)

-- A block and its buddy are the two halves of a block of the next class, in one order or the other.
buddies :
    (q k : ℕ)
    → let base = q / 2 * 2 ^ suc k in
      ((q * 2 ^ k ≡ base) × (bit_xor (q * 2 ^ k) (2 ^ k) ≡ base + 2 ^ k))
      ⊎ ((q * 2 ^ k ≡ base + 2 ^ k) × (bit_xor (q * 2 ^ k) (2 ^ k) ≡ base))
buddies q k = elim (Bool-cases (q % 2 == 0)) [
  | inl e ↦
      let even : q ≡ q / 2 * 2 = ground (arith, e) in
      let next : bit_xor q 1 ≡ suc (q / 2 * 2) = ground (arith, e, xor_one q) in
      inl (
        ap (λ (t : ℕ). t * 2 ^ k) even ∙ even_times (q / 2) k,
        buddy_eq q k ∙ ap (λ (t : ℕ). t * 2 ^ k) next ∙ odd_times (q / 2) k,
      )
  | inr e ↦
      let odd : q ≡ suc (q / 2 * 2) = ground (arith, e) in
      let below : bit_xor q 1 ≡ q / 2 * 2 = ground (arith, e, xor_one q) in
      inr (
        ap (λ (t : ℕ). t * 2 ^ k) odd ∙ odd_times (q / 2) k,
        buddy_eq q k ∙ ap (λ (t : ℕ). t * 2 ^ k) below ∙ even_times (q / 2) k,
      )
]

-- Two halves of a block, in one order or the other.
min_halves :
    (base k ptr buddy : ℕ)
    → ((ptr ≡ base) × (buddy ≡ base + 2 ^ k)) ⊎ ((ptr ≡ base + 2 ^ k) × (buddy ≡ base))
    → (min ptr buddy ≡ base)
      × (buddy ≢ ptr)
      × ((a : ℕ) → inside (suc k) (min ptr buddy) a ≡ inside k ptr a + inside k buddy a)
min_halves base k ptr buddy h =
    let least : min ptr buddy ≡ base = ground (arith) in
    (
      least,
      (λ e. ground (arith, e, one-le-pow k 2)),
      λ a. rw least (ground (arith, halves k base a)),
    )

-- The lower one of a block and its buddy, as a block of the next class.
pub merged_block :
    (ptr q k : ℕ)
    → ptr ≡ q * 2 ^ k
    → (min ptr (bit_xor ptr (2 ^ k)) ≡ q / 2 * 2 ^ suc k)
      × (bit_xor ptr (2 ^ k) ≢ ptr)
      × ((a : ℕ)
          → inside (suc k) (min ptr (bit_xor ptr (2 ^ k))) a
            ≡ inside k ptr a + inside k (bit_xor ptr (2 ^ k)) a)
merged_block ptr q k e =
    rw e (min_halves (q / 2 * 2 ^ suc k) k (q * 2 ^ k) (bit_xor (q * 2 ^ k) (2 ^ k)) (buddies q k))

-- A block that is in a list covers its addresses there.
pub covers-erase :
    (class b a : ℕ) (bs : List ℕ)
    → contains bs b ≡ true
    → covers class bs a ≡ inside class b a + covers class (erase b bs) a
covers-erase class b a [] h = absurd (ground arith)
covers-erase class b a (x ∷ bs) h = ground (arith, covers-erase class b a bs)

pub Multiples-erase :
    (class b : ℕ) (bs : List ℕ) → Multiples class bs → Multiples class (erase b bs)
Multiples-erase class b [] m = tt
Multiples-erase class b (x ∷ bs) m = elim (Bool-cases (b == x)) [
  | inl e ↦ rw (e, erase) m.1
  | inr e ↦ rw (e, erase) (m.0, Multiples-erase class b bs m.1)
]
